-- ===== src/Execution/Started.antt =====
-- When a run is started from the API, and what a run that could not be started leaves behind.
use Prim.Native.String.{String}
use mathlib.Core.Path.{◌≡◌, refl, ap, sym, subst, ◌∙◌}
use mathlib.Core.Logic.{◌≢◌, ◌↔◌, inl, inr}
use mathlib.Core.Bool.{Bool, true}
use mathlib.Core.Option.{none, some}
use mathlib.Core.List.{[], ◌∷◌}
use native.Mathlib.Omega.{arith}
use mywork_automate.Prelude.{Bool-cases, Option-cases}
use mywork_automate.Prelude.Results.{Result, ok, err, Result-cases}
use mywork_automate.Value.{Fields}
use mywork_automate.Flow.{FlowDef}
use mywork_automate.Lifecycle.Handlers.{StoreError, not_found, other_error}
use mywork_automate.Publish.{FlowSummary}
use mywork_automate.Execution.Steps.{RunInput}
use mywork_automate.Execution.Loading.{
  Execution, Entry, Response, accepted, envelope, Body, malformed, with_params, Backend, Codec,
  store_error, resolve_nodes, load_runnable,
}
use mywork_automate.Execution.Handlers.{
  manual_run, running, start_run, start_and_record, run_loaded, run_flow,
}

-- What the store promises: a row that was created is read back, and starting a workflow changes none.
pub record IsLawful {W : Type 0} (b : Backend W) : Type 0 where
  pub read-created :
      (e : Execution) (w : W)
      → (b.create_execution e w).1 ≡ none
      → b.get_execution e.id (b.create_execution e w).0 ≡ ok e
  pub same-run :
      (id other : String) (input : RunInput) (w : W)
      → b.get_execution other (b.run id input w).0 ≡ b.get_execution other w

value_or : {E A : Type 0} → A → Result E A → A
value_or a (ok x) = x
value_or a (err e) = a

module _ {W : Type 0} (b : Backend W) (codec : Codec) (has_runner : Bool)
    (role exec_id now : String) where
  abbrev pub input_of : FlowDef → Fields → RunInput
  input_of def params = record { flow = def; viewer_roles = role ∷ []; params = params }

  -- What goes right where a run is accepted.
  abbrev pub IsStarted : FlowDef → FlowSummary → Fields → W → Type 0
  IsStarted def flow params w =
      ((b.create_execution (running b role exec_id now flow) w).1 ≡ none)
      × ((b.run exec_id (input_of def params)
            (b.create_execution (running b role exec_id now flow) w).0).1
          ≡ none)

  start_and_record-answer :
      (def : FlowDef) (flow : FlowSummary) (params : Fields) (entry : Entry) (w : W) (id : String)
      → ((start_and_record b role exec_id now def flow params entry w).1 ≡ accepted id)
        ↔ ((id ≡ exec_id) × IsStarted def flow params w)
  unfolding start_and_record start_run
  start_and_record-answer def flow params entry w id =
      let w' = (b.create_execution (running b role exec_id now flow) w).0 in
      elim (Option-cases (b.create_execution (running b role exec_id now flow) w).1) [
        | inr (e, failed) ↦
            rw (failed, start_run, start_and_record)
              (λ h. ground arith, λ (same, (made, ran)). ground (arith, failed, made))
        | inl created ↦ elim (Option-cases (b.run exec_id (input_of def params) w').1) [
          | inr (e, failed) ↦
              rw (created, failed, start_run, start_and_record)
                (λ h. ground arith, λ (same, (made, ran)). ground (arith, failed, ran))
          | inl started ↦
              rw (created, started, start_run, start_and_record)
                (
                  λ h. (ground (arith, h), (refl, refl)),
                  λ (same, (made, ran)). ap accepted (sym same),
                )
        ]
      ]

  store_error-refused : (e : StoreError) (x : String) → store_error e ≢ accepted x
  store_error-refused not_found x h = ground arith
  store_error-refused other_error x h = ground arith

  load_runnable-refused :
      (id : String) (w : W) (r : Response) (x : String)
      → load_runnable b codec id w ≡ err r
      → r ≢ accepted x
  load_runnable-refused id w r x = elim (Result-cases (b.get_definition id w)) [
    | inr (e, missing) ↦
        unfold load_runnable in
        rw (missing, load_runnable) (λ h same. store_error-refused e x (ground (arith, h) ∙ same))
    | inl (def, found) ↦ elim (Result-cases (b.get_flow id w)) [
      | inr (e, missing) ↦
          unfold load_runnable in
          rw (found, missing, load_runnable)
            (λ h same. store_error-refused e x (ground (arith, h) ∙ same))
      | inl (flow, there) ↦ elim (Option-cases (resolve_nodes b codec def.nodes w)) [
        | inl dangling ↦
            unfold load_runnable in
            rw (found, there, dangling, load_runnable) (λ h same. ground (arith, h, same))
        | inr (nodes, dialled) ↦
            unfold load_runnable in
            rw (found, there, dialled, load_runnable) (λ h same. ground (arith, h))
      ]
    ]
  ]

  loaded_inj :
      (def d : FlowDef) (flow f : FlowSummary)
      → Path (Result Response (FlowDef × FlowSummary)) (ok (def, flow)) (ok (d, f))
      → Path (FlowDef × FlowSummary) (def, flow) (d, f)
  unfolding value_or
  loaded_inj def d flow f same = ap (λ r. value_or (def, flow) r) same

  run_loaded-answer :
      (id : String) (params : Fields) (w : W) (x : String)
      → ((run_loaded b codec has_runner role exec_id now id params w).1 ≡ accepted x) ↔ (
          (def : FlowDef) × (flow : FlowSummary) × (load_runnable b codec id w ≡ ok (def, flow))
          × (x ≡ exec_id)
          × IsStarted def flow params w)
  run_loaded-answer id params w x = elim (Result-cases (load_runnable b codec id w)) [
    | inr (r, refused) ↦
        unfold run_loaded in
        rw (refused, run_loaded)
          (
            λ h. absurd (load_runnable-refused id w r x refused h),
            λ (d, f, same, s, i). ground (arith, same),
          )
    | inl ((def, flow), loaded) ↦
        let answer = start_and_record-answer def flow params (manual_run exec_id flow) w x in
        unfold run_loaded in
        rw (loaded, run_loaded)
          (
            λ h. let (s, i) = answer.0 h in (def, flow, refl, s, i),
            λ (d, f, same, s, i).
                answer.1 (
                  s,
                  subst (λ p. IsStarted p.0 p.1 params w) (sym (loaded_inj def d flow f same)) i,
                ),
          )
  ]

  -- A run is answered with its id exactly where a runner is configured, the body is read, the flow, its
  -- definition and the connections that it names are found, the row of the run is created and the
  -- workflow starts.
  run_flow_iff :
      (id : String) (body : Body) (w : W) (x : String)
      → ((run_flow b codec has_runner role exec_id now id body w).1 ≡ accepted x) ↔ (
          (x ≡ exec_id)
          × (has_runner ≡ true)
          × (params : Fields) × (body ≡ with_params params)
          × (def : FlowDef) × (flow : FlowSummary) × (load_runnable b codec id w ≡ ok (def, flow))
          × IsStarted def flow params w)
  unfolding run_flow
  run_flow_iff id malformed w x = elim (Bool-cases has_runner) [
    | inl there ↦ rw there (λ h. ground arith, λ (s, r, p, same, d, f, l, i). ground (arith, same))
    | inr absent ↦
        rw absent (λ h. ground arith, λ (s, r, p, same, d, f, l, i). ground (arith, same))
  ]
  run_flow_iff id (with_params params) w x = elim (Bool-cases has_runner) [
    | inl there ↦
        let answer = run_loaded-answer id params w x in
        rw there (
          λ h. let (d, f, l, s, i) = answer.0 h in (s, refl, params, refl, d, f, l, i),
          λ (s, r, p, same, d, f, l, i).
              answer.1 (d, f, l, s, subst (λ q. IsStarted d f q w) (sym (ground (arith, same))) i),
        )
    | inr absent ↦ rw absent (λ h. ground arith, λ (s, r, p, same, d, f, l, i). ground (arith, r))
  ]

  start_run-refused :
      (def : FlowDef) (flow : FlowSummary) (params : Fields) (w : W) (e : String)
      → (b.create_execution (running b role exec_id now flow) w).1 ≡ none
      → (b.run exec_id
          (input_of def params)
          (b.create_execution (running b role exec_id now flow) w).0).1
        ≡ some e
      → start_run b role exec_id now def flow params w ≡ (
        (b.run exec_id
            (input_of def params)
            (b.create_execution (running b role exec_id now flow) w).0).0,
        some (envelope 500 "internal"),
      )
  unfolding start_run
  start_run-refused def flow params w e created failed =
      rw (created, start_run) (rw (failed, start_run) refl)

-- A run whose workflow could not be started is answered with 500, and its row stays in the store with
-- the status `running`.
pub refused_run-running :
    {W : Type 0} (b : Backend W) (codec : Codec) (role exec_id now : String) (id : String)
    (params : Fields) (w : W) (def : FlowDef) (flow : FlowSummary) (e : String)
    → IsLawful b
    → load_runnable b codec id w ≡ ok (def, flow)
    → (b.create_execution (running b role exec_id now flow) w).1 ≡ none
    → (b.run exec_id
        (input_of b codec true role exec_id now def params)
        (b.create_execution (running b role exec_id now flow) w).0).1
      ≡ some e
    → ((run_flow b codec true role exec_id now id (with_params params) w).1
        ≡ envelope 500 "internal")
      × (b.get_execution exec_id
            (run_flow b codec true role exec_id now id (with_params params) w).0
          ≡ ok (running b role exec_id now flow))
unfolding run_flow run_loaded start_and_record start_run
refused_run-running b codec role exec_id now id params w def flow e lawful loaded created failed =
    let row = running b role exec_id now flow in
    let refused =
      start_run-refused b codec true role exec_id now def flow params w e created failed in
    rw (loaded, run_loaded)
      (rw (refused, start_and_record)
        (
          refl,
          rw refused (
              lawful.same-run exec_id exec_id _ (b.create_execution row w).0
              ∙ lawful.read-created row w created),
        ))
