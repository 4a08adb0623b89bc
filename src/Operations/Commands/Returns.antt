-- ===== src/Operations/Commands/Returns.antt =====
-- A command that returned either replayed a record, or executed and recorded its response.
use seatd_v.Base.{
  ◌≡◌, refl, subst, subst₂, ap, sym, ◌∙◌, ◌≢◌, ◌⊎◌, inl, inr, true, false, Option, none, some, ◌==◌,
  arith, find_row, Bool-cases,
}
use seatd_v.Store.{
  Database, IdempotencyRow, Env, Tx, ok, err, Action, issue, after_handle, after_action, pure_inv,
}
use seatd_v.Operations.Errors.{
  Error, wrapped, setting_tenant, getting_idempotency, encoding_response,
}
use seatd_v.Operations.Events.Effects.{encoded_returns}
use seatd_v.Operations.Commands.{
  Caller, CommandMeta, Response, CommandReplay, Reply, commit_context, find_replay,
  replay_or_execute, execute_command, tenant_command, run_tenant_command, record_response,
  is_command, same_command, replay_of, check_replay, encode_response, select_idempotency,
  get_idempotency_replay,
}
use seatd_v.Operations.Commands.Outcomes.{
  entered, in_transaction_returns, in_transaction_fails, Recorded, record_response_returns,
}

module _ (env : Env) (caller : Caller) (meta : CommandMeta) where
  -- The record of this command, of the same type and with the same payload.
  pub record IsRepeated (db : Database) (reply : CommandReplay) : Type 0 where
    pub row : IdempotencyRow
    pub named : meta.id ≢ 0
    pub found : find_row (is_command caller.organisation_id meta.id) db.idempotency ≡ some row
    pub same : same_command meta row ≡ true
    pub replayed : reply ≡ replay_of row

  check_replay_returns :
      (o : Option IdempotencyRow) (t u : Tx) (found : Option CommandReplay)
      → check_replay meta o env t ≡ ok (found, u)
      → ((found ≡ none) × (o ≡ none) × (u ≡ t))
        ⊎ ((r : IdempotencyRow) × (o ≡ some r)
            × (same_command meta r ≡ true)
            × (found ≡ some (replay_of r))
            × (u ≡ t))
  check_replay_returns none t u found h = inl (cc, refl, cc)
  check_replay_returns (some r) t u found h = elim (Bool-cases (same_command meta r)) [
    | inl same ↦ let e = pure_inv (rw same at h) in inr (r, refl, same, e.0, e.1)
    | inr other ↦ absurd (ground arith)
  ]

  select_idempotency_returns :
      (t u : Tx) (o : Option IdempotencyRow)
      → select_idempotency caller.organisation_id meta.id env t ≡ ok (o, u)
      → (o ≡ find_row (is_command caller.organisation_id meta.id) t.db.idempotency) × (u.db ≡ t.db)
  select_idempotency_returns t u o h = ground arith

  find_replay_returns :
      (t u : Tx) (found : Option CommandReplay)
      → find_replay caller meta env t ≡ ok (found, u)
      → (u.db ≡ t.db)
        × ((found ≡ none)
            ⊎ ((reply : CommandReplay) × (found ≡ some reply) × IsRepeated t.db reply))
  unfolding get_idempotency_replay
  find_replay_returns t u found h = elim (Bool-cases (meta.id == 0)) [
    | inl nil ↦ let e = pure_inv (rw nil at h) in (ap (λ (t : Tx). t.db) e.1, inl e.0)
    | inr id ↦
        after_handle (wrapped getting_idempotency)
          (select_idempotency caller.organisation_id meta.id) (check_replay meta) env t (rw id at h)
          λ o t₁ h₁ k₁.
            let (e, e') = select_idempotency_returns t t₁ o h₁ in
            elim (check_replay_returns o t₁ u found k₁) [
              | inl (missing, _, same) ↦ (cc (same, e'), inl missing)
              | inr (r, is_r, same, is_found, same_tx) ↦ (
                cc (same_tx, e'),
                inr (
                  replay_of r,
                  is_found,
                  record {
                    row = r;
                    named = ground arith;
                    found = cc (e, is_r);
                    same = same;
                    replayed = refl;
                  },
                ),
              )
            ]
  ]

module _ {T : Type 0} (env : Env) (caller : Caller) (meta : CommandMeta) (execute : Action Error T)
    (after : T → Action Error (Unit {0})) (encode : Option (T → Option Response))
    (db : Database) where
  -- The command's own work, its event and the record of its response, in this order.
  pub record Executes (value : T) (full : Response) (db' : Database) : Type 0 where
    pub before : Tx
    pub worked : Tx
    pub emitted : Tx
    pub unchanged : before.db ≡ db
    pub executed : execute env before ≡ ok (value, worked)
    pub reported : Unit {0}
    pub reports : after value env worked ≡ ok (reported, emitted)
    pub response : Response
    pub encodes : encode_response encode value env emitted ≡ ok (response, emitted)
    pub recorded : Recorded env caller meta response emitted.db full db'

  encode_response_returns :
      (o : Option (T → Option Response)) (value : T) (t u : Tx) (response : Response)
      → encode_response o value env t ≡ ok (response, u)
      → u ≡ t
  encode_response_returns none value t u response h = (pure_inv h).1
  encode_response_returns (some f) value t u response h =
      (encoded_returns (f value) encoding_response env t h).1

  execute_command_returns :
      (t u : Tx) (value : Option T) (reply : CommandReplay)
      → t.db ≡ db
      → execute_command caller meta execute after encode env t ≡ ok ((value, reply), u)
      → (v : T) × (value ≡ some v) × (reply.replayed ≡ false) × Executes v reply.response u.db
  unfolding execute_command
  execute_command_returns t u value reply same h = after_action execute _ env t h λ v t₁ h₁ k₁.
      after_action (after v) _ env t₁ k₁ λ x t₂ h₂ k₂.
        after_action (encode_response encode v) _ env t₂ k₂ λ response t₃ h₃ k₃.
          after_action (record_response caller meta response) _ env t₃ k₃ λ full t₄ h₄ k₄.
            let kept = encode_response_returns encode v t₂ t₃ response h₃ in
            let (e, e') = pure_inv k₄ in
            let whole : reply.response ≡ full = ap (λ (r : Reply T). r.1.response) e in
            let recorded : Recorded env caller meta response t₂.db full t₄.db =
              subst (λ (t : Tx). Recorded env caller meta response t.db full t₄.db) kept
                (record_response_returns env caller meta t₃ t₄ response full h₄) in
            (
              v,
              cc e,
              cc e,
              record {
                before = t;
                worked = t₁;
                emitted = t₂;
                unchanged = same;
                executed = h₁;
                reported = x;
                reports = h₂;
                response = response;
                encodes = rw kept at h₃;
                recorded = rw whole (rw e' recorded);
              },
            )

  -- Statements that ran up to COMMIT have replayed the record and written nothing, or executed the command.
  pub tenant_command_returns :
      (value : Option T) (reply : CommandReplay) (u : Tx) (db' : Database)
      → tenant_command caller meta execute after encode env
          (entered (commit_context {T = T}) env db)
        ≡ ok ((value, reply), u)
      → db' ≡ u.db
      → ((value ≡ none) × IsRepeated env caller meta db reply × (db' ≡ db))
        ⊎ ((v : T) × (value ≡ some v) × (reply.replayed ≡ false) × Executes v reply.response db')
  unfolding tenant_command
  tenant_command_returns value reply u db' ran stored =
      after_handle (wrapped setting_tenant) issue _ env (entered (commit_context {T = T}) env db)
        ran
        λ x t₁ h₁ k₁.
          after_action (find_replay caller meta)
            (replay_or_execute caller meta execute after encode) env t₁ k₁
            λ found t₂ h₂ k₂.
              let entered_db : t₁.db ≡ db = ground arith in
              let (e, replay) = find_replay_returns env caller meta t₁ t₂ found h₂ in
              elim replay [
                | inl missing ↦
                    let (v, is_v, fresh, executes) =
                      execute_command_returns t₂ u value reply (e ∙ entered_db)
                        (rw missing at k₂) in
                    inr (v, is_v, fresh, rw stored executes)
                | inr (r, is_found, repeated) ↦
                    let (same, last) = pure_inv (rw is_found at k₂) in
                    inl (
                      ap (λ (p : Reply T). p.0) same,
                      subst₂ (λ (d : Database) (p : CommandReplay). IsRepeated env caller meta d p)
                          entered_db (sym (ap (λ (p : Reply T). p.1) same)) repeated,
                      stored ∙ ap (λ (t : Tx). t.db) last ∙ e ∙ entered_db,
                    )
              ]

  -- A command that returned has replayed its record and changed nothing, or has executed.
  pub run_tenant_command_returns :
      (value : Option T) (reply : CommandReplay) (db' : Database)
      → run_tenant_command caller meta execute after encode env db ≡ (ok (value, reply), db')
      → ((value ≡ none) × IsRepeated env caller meta db reply × (db' ≡ db))
        ⊎ ((v : T) × (value ≡ some v) × (reply.replayed ≡ false) × Executes v reply.response db')
  unfolding run_tenant_command
  run_tenant_command_returns value reply db' h =
      let (u, ran, stored) =
        in_transaction_returns commit_context env db
          (tenant_command caller meta execute after encode) h in
      tenant_command_returns value reply u db' ran stored

  -- A command that returned an error has changed nothing, or its statements ran and COMMIT took effect.
  pub run_tenant_command_fails :
      (e : Error) (db' : Database)
      → run_tenant_command caller meta execute after encode env db ≡ (err e, db')
      → (db' ≡ db) ⊎ ((v : T) × (full : Response) × Executes v full db')
  unfolding run_tenant_command
  run_tenant_command_fails e db' h =
      elim (in_transaction_fails commit_context env db
        (tenant_command caller meta execute after encode) h) [
          | inl same ↦ inl same
          | inr ((value, reply), u, ran, stored) ↦
              elim (tenant_command_returns value reply u db' ran stored) [
                | inl (_, _, same) ↦ inl same
                | inr (v, _, _, x) ↦ inr (v, reply.response, x)
              ]
        ]
