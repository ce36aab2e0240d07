-- ===== src/Matchmaking/Pool/Accepts.antt =====
-- MatchmakingPool.accept: the mark of a participant, and the dispatch once everyone accepted.
use mathlib.Core.List.{append-nil}
use edopro_server_ts.Prelude.Int.{sub_ℕ}
use edopro_server_ts.Prelude.{
  ℕ, ◌≡◌, refl, ap, ◌∙◌, String, none, some, true, List, [], ◌∷◌, ◌++◌, arith, ltb, if◌then◌else◌,
  Bool-cases, inl, inr, ◌⊎◌, ◌↔◌, ◌||◌, All, all,
}
use edopro_server_ts.Prelude.Eq.{◌==◌, string_eq, contains, ==_iff, ==_refl}
use edopro_server_ts.Prelude.Dict.{get, insert, delete, get-insert, get-delete}
use edopro_server_ts.Matchmaking.{Participant, Match}
use edopro_server_ts.Matchmaking.Store.Index.{contains-set_add}
use edopro_server_ts.Matchmaking.Pending.{PendingMatch}
use edopro_server_ts.Matchmaking.Pool.{
  MatchmakingPool, Effect, exit, status_searching, proposed, closed, handled, QueueExitOutcome,
  matched_human, log_exits, log_exit,
}
use edopro_server_ts.Matchmaking.Pool.Answers.{
  accept, answer_accepted, find_live_pending, is_in, accepted_by, all_accepted,
}

-- The matches handed to the match handler, in order.
abbrev pub handed : List Effect → List Match
handed [] = []
handed (handled m ∷ es) = m ∷ handed es
handed (exit _ _ _ ∷ es) = handed es
handed (status_searching _ _ ∷ es) = handed es
handed (proposed _ _ ∷ es) = handed es
handed (closed _ _ ∷ es) = handed es

handed-append : (es fs : List Effect) → handed (es ++ fs) ≡ handed es ++ handed fs
handed-append [] fs = refl
handed-append (handled m ∷ es) fs = ap (λ ms. m ∷ ms) (handed-append es fs)
handed-append (exit _ _ _ ∷ es) fs = handed-append es fs
handed-append (status_searching _ _ ∷ es) fs = handed-append es fs
handed-append (proposed _ _ ∷ es) fs = handed-append es fs
handed-append (closed _ _ ∷ es) fs = handed-append es fs

log_exits-handed :
    (now : ℕ) (ps : List Participant) (outcome : QueueExitOutcome) (s : MatchmakingPool)
    → (handed (log_exits now ps outcome s).effects ≡ handed s.effects)
      × ((log_exits now ps outcome s).store ≡ s.store)
      × ((log_exits now ps outcome s).pending ≡ s.pending)
log_exits-handed now [] outcome s = (refl, refl, refl)
log_exits-handed now (p ∷ ps) outcome s =
    let (h, r, q) = log_exits-handed now ps outcome (log_exit now p outcome s) in
    let waited = sub_ℕ now p.enqueued_at in
    (
      h ∙ handed-append s.effects (exit p.id outcome waited ∷ []) ∙ append-nil (handed s.effects),
      r,
      q,
    )

live-find :
    (now : ℕ) (match_id participant_id : String) (s : MatchmakingPool) (found : PendingMatch)
    → get match_id s.pending ≡ some found
    → ltb now found.deadline ≡ true
    → is_in participant_id found.pairing ≡ true
    → find_live_pending now match_id participant_id s ≡ some found
unfolding find_live_pending
live-find now match_id participant_id s found here open_still member =
    rw (here, open_still, member, find_live_pending) refl

-- Everyone in the match has accepted, the participant with the id included.
abbrev pub EveryoneAccepts : String → PendingMatch → Type 0
EveryoneAccepts id found =
    All (λ (p : Participant). (p.id ≡ id) ⊎ (contains p.id found.accepted ≡ true))
      found.pairing.participants

-- The pending match, with the participant among those who accepted and nothing else changed.
abbrev pub IsMarked : String → PendingMatch → PendingMatch → Type 0
IsMarked id found marked =
    (marked.pairing ≡ found.pairing)
    × (marked.deadline ≡ found.deadline)
    × ((other : String)
        → contains other marked.accepted ≡ (id == other || contains other found.accepted))

accepted_by-IsMarked :
    (id : String) (found : PendingMatch) → IsMarked id found (accepted_by id found)
accepted_by-IsMarked id found = (refl, refl, λ other. contains-set_add id other found.accepted)

accepts_all :
    (id : String) (before after : List String) (ps : List Participant)
    → ((other : String) → contains other after ≡ (id == other || contains other before))
    → (all (λ (p : Participant). contains p.id after) ps ≡ true)
      ↔ All (λ (p : Participant). (p.id ≡ id) ⊎ (contains p.id before ≡ true)) ps
accepts_all id before after [] marks = (λ _. tt, λ _. refl)
accepts_all id before after (p ∷ ps) marks =
    let (to, from) = accepts_all id before after ps marks in
    (
      λ h. (ground (arith, h, marks p.id, ==_iff id p.id), to (ground (arith, h))),
      λ (h, hs). ground (arith, h, from hs, marks p.id, ==_iff id p.id),
    )

-- A participant who accepts a pending match of its own before the deadline is answered so. When
-- everyone in the match has then accepted, it is handed to the handler and is no longer pending. As
-- long as someone has not, nothing is handed over and the match stays pending, with the participant
-- among those who accepted and nothing else of it changed. Other pending matches, and who is in the
-- store, are left alone.
pub accept_hands :
    (now : ℕ) (match_id participant_id : String) (s : MatchmakingPool) (found : PendingMatch)
    → get match_id s.pending ≡ some found
    → ltb now found.deadline ≡ true
    → is_in participant_id found.pairing ≡ true
    → let (outcome, t) = accept now match_id participant_id s in
      (outcome ≡ answer_accepted)
      × (t.store ≡ s.store)
      × ((id : String)
          → get id t.pending
            ≡ (if match_id == id then get match_id t.pending else get id s.pending))
      × ((EveryoneAccepts participant_id found
            × (handed t.effects ≡ handed s.effects ++ found.pairing ∷ [])
            × (get match_id t.pending ≡ none))
          ⊎ (¬ EveryoneAccepts participant_id found
              × (handed t.effects ≡ handed s.effects)
              × ((marked : PendingMatch) × (get match_id t.pending ≡ some marked)
                  × IsMarked participant_id found marked)))
unfolding accept
accept_hands now match_id participant_id s found here open_still member =
    let live = live-find now match_id participant_id s found here open_still member in
    let marked = accepted_by participant_id found in
    let marks = accepted_by-IsMarked participant_id found in
    let book = insert match_id marked s.pending in
    let started = record s { pending = delete match_id book } in
    let everyone_iff =
      accepts_all participant_id found.accepted marked.accepted found.pairing.participants
        marks.2 in
    elim (Bool-cases (all_accepted marked)) [
      | inl everyone ↦
          let (h, r, q) = log_exits-handed now found.pairing.participants matched_human started in
          let logged = log_exits now found.pairing.participants matched_human started in
          rw (live, everyone, accept)
            (
              refl,
              r,
              λ id. rw q (
                  ground (
                    arith,
                    get-delete match_id id book,
                    get-insert match_id id marked s.pending,
                    ==_iff match_id id,
                  )),
              inl (
                everyone_iff.0 everyone,
                handed-append logged.effects (handled found.pairing ∷ [])
                    ∙ ap (λ ms. ms ++ found.pairing ∷ []) h,
                ap (get match_id) q
                    ∙ get-delete match_id match_id book
                    ∙ rw (==_refl match_id) refl,
              ),
            )
      | inr waits ↦
          rw (live, waits, accept)
            (
              refl,
              refl,
              λ id. ground (arith, get-insert match_id id marked s.pending, ==_iff match_id id),
              inr (
                λ all_have. cc (everyone_iff.1 all_have),
                refl,
                (
                  marked,
                  get-insert match_id match_id marked s.pending ∙ rw (==_refl match_id) refl,
                  marks,
                ),
              ),
            )
    ]
