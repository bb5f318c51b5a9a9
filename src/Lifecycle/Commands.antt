-- ===== src/Lifecycle/Commands.antt =====
-- What the lifecycle commands of apps/automate-api/internal/httpapi/handlers_lifecycle.go do to a
-- flow's status, on every branch.
use Prim.Native.String.{String}
use Prim.Native.Nat.{ℕ}
use native.Mathlib.Omega.{arith}
use mathlib.Core.Path.{◌≡◌, refl, ap, ◌∙◌}
use mathlib.Core.Logic.{◌⊎◌, ◌↔◌, ◌≢◌, inl, inr}
use mathlib.Core.Bool.{true, false}
use mathlib.Core.Option.{none, some}
use mathlib.Core.List.{List, [], ◌∷◌}
use mywork_automate.Prelude.Results.{ok, Result-cases}
use mywork_automate.Prelude.{Bool-cases, Option-cases}
use mywork_automate.Lifecycle.Machine.{
  status_published, status_paused, status_stopped, can_transition, IsLegal, can_transition_iff,
  republishes,
}
use mywork_automate.Lifecycle.Handlers.{
  StoreError, not_found, other_error, SchedOp, pause, resume, delete, Response, status_ok, envelope,
  Backend, IsLawful, store_error, tell_scheduler, set_and_tell, transition, pause_flow, resume_flow,
  stop_flow, Command, pause_command, resume_command, stop_command, serve, serve_all,
}

-- The status that a command asks for.
abbrev pub target_of : Command → String
target_of pause_command = "paused"
target_of resume_command = "published"
target_of stop_command = "stopped"

status_code : Response → ℕ
status_code (status_ok s) = 200
status_code (envelope code s) = code

other_envelope : {m : String} → envelope 500 m ≢ envelope 409 "invalid_transition"
unfolding status_code
other_envelope h = let e : 500 ≡ 409 = ap status_code h in omega (arith, e)

store_error-no_conflict : (e : StoreError) → store_error e ≢ envelope 409 "invalid_transition"
unfolding status_code
store_error-no_conflict not_found h = let e : 404 ≡ 409 = ap status_code h in omega (arith, e)
store_error-no_conflict other_error h = other_envelope h

module _ {W : Type 0} (b : Backend W) (law : IsLawful b) where
  tell_scheduler-status :
      (to action : String) (op : SchedOp) (id : String) (w : W)
      → b.get_flow_status id (tell_scheduler b to action op id w).0 ≡ b.get_flow_status id w
  unfolding tell_scheduler
  tell_scheduler-status to action op id w = elim (Option-cases (b.sched op id w).1) [
    | inl fine ↦ rw (fine, tell_scheduler) (law.get-record_entry _ id _ ∙ law.get-sched op id w)
    | inr (m, failed) ↦ rw (failed, tell_scheduler) (law.get-sched op id w)
  ]

  -- The store refuses to write the status.
  abbrev pub IsUnwritten : String → String → W → Type 0
  IsUnwritten to id w = (e : StoreError) × ((b.set_flow_status id to w).1 ≡ some e)

  set_and_tell-status :
      (to action : String) (op : SchedOp) (id : String) (w : W)
      → ((b.get_flow_status id (set_and_tell b to action op id w).0 ≡ b.get_flow_status id w)
          × IsUnwritten to id w)
        ⊎ (b.get_flow_status id (set_and_tell b to action op id w).0 ≡ ok to)
  unfolding set_and_tell
  set_and_tell-status to action op id w = elim (Option-cases (b.set_flow_status id to w).1) [
    | inl fine ↦
        rw (fine, set_and_tell)
          (inr (tell_scheduler-status to action op id _ ∙ law.get-set id to w fine))
    | inr (e, failed) ↦
        rw (failed, set_and_tell) (inl (law.get-set_failed id to w e failed, (e, refl)))
  ]

  -- Whatever fails on the way, a command makes the hop if it is legal and the store writes it, and else
  -- leaves the status as it was.
  transition-legal :
      (to action : String) (op : SchedOp) (id from : String) (w : W)
      → b.get_flow_status id w ≡ ok from
      → let after = b.get_flow_status id (transition b to action op id w).0 in
        ((after ≡ ok from) × ((can_transition from to ≡ false) ⊎ IsUnwritten to id w))
        ⊎ ((can_transition from to ≡ true) × (after ≡ ok to))
  unfolding transition
  transition-legal to action op id from w h = elim (Bool-cases (can_transition from to)) [
    | inl legal ↦
        rw (h, transition, legal)
          (elim (set_and_tell-status to action op id w) [
            | inl (kept, failed) ↦ inl (kept ∙ h, inr failed)
            | inr moved ↦ inr (refl, moved)
          ])
    | inr illegal ↦ rw (h, transition, illegal) (inl (h, inl refl))
  ]

  -- One command: it moves the status to the one that it asks for by a legal hop, or the status stays,
  -- since there is no such hop or the store refuses to write it.
  abbrev pub IsMoved : Command → String → String → String → W → Type 0
  IsMoved c id from to w =
      ((to ≡ target_of c) × IsLegal from to)
      ⊎ ((to ≡ from) × ((¬ IsLegal from (target_of c)) ⊎ IsUnwritten (target_of c) id w))

  one_move :
      (c : Command) (to action : String) (op : SchedOp) (id from : String) (w : W)
      → to ≡ target_of c
      → b.get_flow_status id w ≡ ok from
      → (t : String) × (b.get_flow_status id (transition b to action op id w).0 ≡ ok t)
        × IsMoved c id from t w
  one_move c to action op id from w asked h = elim (transition-legal to action op id from w h) [
    | inl (kept, why) ↦ (
      from,
      kept,
      inr (
        refl,
        rw (← asked) (elim why [
          | inl illegal ↦ inl (λ hop. absurd (cc (illegal, (can_transition_iff from to).1 hop)))
          | inr failed ↦ inr failed
        ]),
      ),
    )
    | inr (legal, moved) ↦ (to, moved, inl (asked, (can_transition_iff from to).0 legal))
  ]

  serve-IsMoved :
      (c : Command) (id from : String) (w : W)
      → b.get_flow_status id w ≡ ok from
      → (to : String) × (b.get_flow_status id (serve b c id w).0 ≡ ok to) × IsMoved c id from to w
  unfolding serve pause_flow resume_flow stop_flow
  serve-IsMoved pause_command id from w h =
      one_move pause_command status_paused "flow.pause" pause id from w refl h
  serve-IsMoved resume_command id from w h =
      one_move resume_command status_published "flow.resume" resume id from w refl h
  serve-IsMoved stop_command id from w h =
      one_move stop_command status_stopped "flow.stop" delete id from w refl h

  -- The status after each command, one by one, and after the last.
  abbrev pub Moves : List Command → String → String → String → W → Type 0
  Moves [] id from last w = last ≡ from
  Moves (c ∷ cs) id from last w =
      (to : String) × (b.get_flow_status id (serve b c id w).0 ≡ ok to)
      × IsMoved c id from to w
      × Moves cs id to last (serve b c id w).0

  -- In any sequence of commands each single one moves the status to the one that it asks for, by one of
  -- the six legal hops, or leaves the status as it is; it does so only where no legal hop leads there or
  -- the store refuses to write it.
  pub serve_all-Moves :
      (cs : List Command) (id from : String) (w : W)
      → b.get_flow_status id w ≡ ok from
      → (last : String) × (b.get_flow_status id (serve_all b cs id w) ≡ ok last)
        × Moves cs id from last w
  unfolding serve_all
  serve_all-Moves [] id from w h = (from, h, refl)
  serve_all-Moves (c ∷ cs) id from w h =
      let (mid, h', moved) = serve-IsMoved c id from w h in
      let (last, h'', more) = serve_all-Moves cs id mid (serve b c id w).0 h' in
      (last, h'', (mid, h', moved, more))

  -- What a command answers beside the conflict.
  set_and_tell-no_conflict :
      (to action : String) (op : SchedOp) (id : String) (w : W)
      → (set_and_tell b to action op id w).1 ≢ envelope 409 "invalid_transition"
  unfolding set_and_tell tell_scheduler
  set_and_tell-no_conflict to action op id w h =
      let r = b.set_flow_status id to w in
      elim (Option-cases r.1) [
        | inr (e, failed) ↦ store_error-no_conflict e (rw (failed, set_and_tell) at h)
        | inl fine ↦ elim (Option-cases (b.sched op id r.0).1) [
          | inl told ↦ absurd (let k = rw (fine, set_and_tell, told, tell_scheduler) at h in cc)
          | inr (m, lost) ↦
              absurd
                (let k = rw (fine, set_and_tell, lost, tell_scheduler) at h in other_envelope k)
        ]
      ]

  -- A command answers 409 exactly for a flow that can be read and whose status has no legal hop to the
  -- one asked for, and then it leaves the world as it was.
  transition-conflict :
      (to action : String) (op : SchedOp) (id : String) (w : W)
      → let r = transition b to action op id w in
        (r.1 ≡ envelope 409 "invalid_transition") ↔ (
          (from : String) × (b.get_flow_status id w ≡ ok from)
          × (can_transition from to ≡ false)
          × (r.0 ≡ w))
  unfolding transition
  transition-conflict to action op id w = (
    λ h. elim (Result-cases (b.get_flow_status id w)) [
      | inr (e, unread) ↦ absurd (store_error-no_conflict e (rw (unread, transition) at h))
      | inl (from, read) ↦ elim (Bool-cases (can_transition from to)) [
        | inl legal ↦
            absurd (set_and_tell-no_conflict to action op id w (rw (read, transition, legal) at h))
        | inr refused ↦ (from, read, refused, rw (read, transition, refused))
      ]
    ],
    λ (from, read, refused, same). rw (read, transition, refused),
  )

  -- Where the scheduler fails the answer is 500, and the status has moved all the same: the status and
  -- the schedule diverge.
  pub transition-diverges :
      (to action : String) (op : SchedOp) (id from message : String) (w : W)
      → b.get_flow_status id w ≡ ok from
      → can_transition from to ≡ true
      → (b.set_flow_status id to w).1 ≡ none
      → (b.sched op id (b.set_flow_status id to w).0).1 ≡ some message
      → ((transition b to action op id w).1 ≡ envelope 500 "internal")
        × (b.get_flow_status id (transition b to action op id w).0 ≡ ok to)
  unfolding transition set_and_tell tell_scheduler
  transition-diverges to action op id from message w h legal written failed =
      rw (h, transition, legal, set_and_tell, written, tell_scheduler, failed)
        (refl, law.get-sched op id _ ∙ law.get-set id to w written)

  -- `resume` is answered 200 for a draft and for a stopped flow too, and publishes it.
  pub resume_publishes :
      (id from : String) (w : W)
      → (from ≡ "draft") ⊎ (from ≡ "stopped")
      → b.get_flow_status id w ≡ ok from
      → (b.set_flow_status id status_published w).1 ≡ none
      → (b.sched resume id (b.set_flow_status id status_published w).0).1 ≡ none
      → ((resume_flow b id w).1 ≡ status_ok status_published)
        × (b.get_flow_status id (resume_flow b id w).0 ≡ ok status_published)
  unfolding resume_flow transition set_and_tell tell_scheduler
  resume_publishes id from w start h written told =
      let legal : can_transition from status_published ≡ true = republishes from start in
      rw (h, transition, legal, set_and_tell, written, tell_scheduler, told)
        (
          refl,
          law.get-record_entry _ id _
              ∙ law.get-sched resume id _
              ∙ law.get-set id status_published w written,
        )
