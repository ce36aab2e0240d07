-- ===== src/RoomRules/Creation.antt =====
-- Which commands make a room, and with which settings.
use edopro_server_ts.Prelude.{
  ℕ, ◌<◌, ◌≡◌, ◌↔◌, ◌⊎◌, inl, inr, sym, ap, ◌∙◌, subst, Option, some, Bool, true, false, List,
  arith, any, All,
}
use edopro_server_ts.RoomRules.{Text, Catalog, extract_number_from_command}
use edopro_server_ts.RoomRules.Room.{
  initial_host_info, options_of, room_of, create, YgoproRoom, created, thrown,
}
use edopro_server_ts.RoomRules.Ranges.{IsInRange}
use edopro_server_ts.RoomRules.Tiers.{asks_missing, tiers_act}

-- The numbers that the option may give are exact in the source's arithmetic.
abbrev pub IsExact : Text → Type 0
IsExact o = (n : ℕ) → extract_number_from_command o ≡ some n → n < 9007199254740992

module _ (to_lower trim : Text → Text) (catalog : Catalog) (command : Text)
    (ranked_override : Option Bool) (has_pin : Bool) where
  options : List Text
  options = options_of to_lower trim command

  created_or_thrown :
      ((any (asks_missing catalog) options ≡ true)
        × (create to_lower trim catalog command ranked_override has_pin ≡ thrown))
      ⊎ ((any (asks_missing catalog) options ≡ false)
          × (room : YgoproRoom) × (create to_lower trim catalog command ranked_override has_pin
              ≡ created room)
          × IsInRange room.host_info)
  unfolding create options
  created_or_thrown = elim (tiers_act catalog options (initial_host_info catalog) (ground arith)) [
    | inl (asks, ends) ↦
        inl (asks, ap (room_of to_lower trim catalog command ranked_override has_pin) ends)
    | inr (fine, (h, ends, i)) ↦
        inr (fine, _, ap (room_of to_lower trim catalog command ranked_override has_pin) ends, i)
  ]

  -- Creating a room from a command throws exactly when one of its options asks for Genesys, whose
  -- banlist is not loaded: no two rules ever accept one option.
  pub create_throws_iff :
      (create to_lower trim catalog command ranked_override has_pin ≡ thrown)
      ↔ (any (asks_missing catalog) (options_of to_lower trim command) ≡ true)
  unfolding options
  create_throws_iff = elim created_or_thrown [
    | inl (asks, ends) ↦ (λ _. asks, λ _. ends)
    | inr (fine, room, ends, _) ↦ (λ h. cc, λ h. cc)
  ]

  -- Where the numbers of its options are exact, the room of a command has settings within their
  -- ranges: life points from 1 to 99999, a hand of 1 to 40, 1 to 35 draws, at most 3600 seconds, a
  -- master rule of 1 to 5, a card scope of at most 5, and an odd number of duels, which is one unless
  -- the room is in match mode.
  pub create-IsInRange :
      (room : YgoproRoom)
      → All IsExact (options_of to_lower trim command)
      → create to_lower trim catalog command ranked_override has_pin ≡ created room
      → IsInRange room.host_info
  create-IsInRange room exact h = elim created_or_thrown [
    | inl (asks, ends) ↦ absurd (let g : thrown ≡ created room = sym ends ∙ h in cc)
    | inr (fine, other, ends, i) ↦
        let same : other ≡ room = cc in subst (λ r. IsInRange r.host_info) same i
  ]
