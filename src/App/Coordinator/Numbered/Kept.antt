-- ===== src/App/Coordinator/Numbered/Kept.antt =====
-- coordinator.py: `complete_outcome`, the reading of a page and a turn of the loop keep the cursors
-- in order, and a run that has ended has all its outcomes.
use Prim.Native.Nat.{ℕ, ◌+◌, ◌-◌}
use mathlib.Core.Path.{subst}
use value_stream_simulator.Prelude.{
  ◌≡◌, refl, sym, inl, inr, Bool, true, false, not, ◌||◌, Option, none, some, get_elem?, All,
  Bool-cases, Option-cases, ltb, ◌==◌, arith,
}
use value_stream_simulator.Prelude.Exec.{modify, ◌>>=◌, ◌>>◌}
use value_stream_simulator.Prelude.Keeps.{Keeps, bind_leads}
use value_stream_simulator.Prelude.Number.{Number}
use value_stream_simulator.Prelude.Dict.{lookup, put, values, lookup-put_self, All-lookup, All-put}
use value_stream_simulator.Service.Schemas.{Status, ResultData}
use value_stream_simulator.App.Schemas.{Code, is_terminal, OutcomeSummary, RunStatus}
use value_stream_simulator.App.Settings.{AppSettings}
use value_stream_simulator.App.Storage.{
  RunRecord, Cache, WorkspaceStore, Host, save_run, move_to_end,
}
use value_stream_simulator.App.Storage.Access.{retain_in_cache, record_result, retain_result}
use value_stream_simulator.App.Storage.Retained.{retain_cached, retain_over, retain_absent}
use value_stream_simulator.App.Storage.Limits.{or_raise-Keeps, get_record-Keeps}
use value_stream_simulator.App.Coordinator.{
  has_cursor, with_closed, update_status, measured, retain_if_any, complete_outcome,
}
use value_stream_simulator.App.Coordinator.Numbered.{
  IsNumbered, open_count, with_closed-IsNumbered, with_closed-open_count,
}

module _ {F : Type 0} where
  -- The cursors are in order, and where the run has ended, no outcome is without one.
  pub record IsTidy (run : RunStatus F) : Type 0 where
    pub numbered : IsNumbered run
    pub settled : (not (is_terminal run.state) || (open_count run.outcomes == 0)) ≡ true

  unfoldable pub AreTidy : WorkspaceStore F → Type 0
  AreTidy s = All (λ r. IsTidy r.status) (values s.runs)

  -- The run has this status, if it is there.
  unfoldable pub HasStatus : ℕ → RunStatus F → WorkspaceStore F → Type 0
  HasStatus run_id run s = elim (lookup s.runs run_id) [ none ↦ Unit | some r ↦ r.status ≡ run ]

  pub save_run-AreTidy :
      (run_id : ℕ) (r : RunRecord F) → IsTidy r.status → Keeps AreTidy (save_run run_id r)
  unfolding AreTidy save_run
  save_run-AreTidy run_id r tidy s h =
      All-put (λ (x : RunRecord F). IsTidy x.status) s.runs run_id r h tidy

  pub found-IsTidy :
      (run_id : ℕ) (r : RunRecord F) (s : WorkspaceStore F)
      → AreTidy s
      → lookup s.runs run_id ≡ some r
      → IsTidy r.status
  unfolding AreTidy
  found-IsTidy run_id r s h found =
      All-lookup (λ (x : RunRecord F). IsTidy x.status) s.runs run_id h found

  pub update_status-AreTidy :
      (run_id : ℕ) (f : RunStatus F → RunStatus F) (s : WorkspaceStore F)
      → ((r : RunRecord F) → lookup s.runs run_id ≡ some r → IsTidy (f r.status))
      → AreTidy s
      → AreTidy (update_status run_id f s).1
  unfolding update_status
  update_status-AreTidy run_id f s kept h =
      get_record-Keeps AreTidy run_id _ s h
        (λ r found. save_run-AreTidy run_id _ (kept r found) s h)

  pub with_closed-IsTidy :
      (index : ℕ) (status : Status) (error : Option Code) (cached : Bool) (o0 o : OutcomeSummary F)
      (run : RunStatus F)
      → get_elem? run.outcomes index ≡ some o0
      → has_cursor o0 ≡ false
      → IsTidy run
      → IsTidy (with_closed index status error cached o run)
  unfolding with_closed
  with_closed-IsTidy index status error cached o0 o run found undone tidy = record {
    numbered = with_closed-IsNumbered index status error cached o0 o run found undone tidy.numbered;
    settled = ground (
      arith,
      tidy.settled,
      with_closed-open_count index status error cached o0 o run found undone,
    );
  }

  -- What holds while a result is retained: the store is tidy, and the run has the status it had.
  Held : ℕ → RunStatus F → WorkspaceStore F → Type 0
  Held run_id run s = AreTidy s × HasStatus run_id run s

  save_run-Held :
      (run_id : ℕ) (run : RunStatus F) (r : RunRecord F) (s : WorkspaceStore F)
      → r.status ≡ run
      → IsTidy run
      → AreTidy s
      → Held run_id run (save_run run_id r s).1
  unfolding Held HasStatus save_run
  save_run-Held run_id run r s same tidy h = (
    save_run-AreTidy run_id r (subst IsTidy (sym same) tidy) s h,
    rw (lookup-put_self s.runs run_id r, HasStatus) same,
  )

  found-Held :
      (run_id : ℕ) (run : RunStatus F) (r : RunRecord F) (s : WorkspaceStore F)
      → Held run_id run s
      → lookup s.runs run_id ≡ some r
      → (r.status ≡ run) × IsTidy run
  unfolding Held HasStatus
  found-Held run_id run r s h found =
      let same = rw (found, HasStatus) at h.1 in
      (same, subst IsTidy same (found-IsTidy run_id r s h.0 found))

  found_now :
      (run_id : ℕ) (r : RunRecord F) (s : WorkspaceStore F)
      → AreTidy s
      → lookup s.runs run_id ≡ some r
      → Held run_id r.status s
  unfolding Held HasStatus
  found_now run_id r s h found = (h, rw (found, HasStatus) refl)

  cache-Held :
      (run_id : ℕ) (run : RunStatus F) (cache : Cache F) (s : WorkspaceStore F)
      → Held run_id run s
      → Held run_id run (record s { cache = cache })
  unfolding Held AreTidy HasStatus
  cache-Held run_id run cache s h = h

  Held-AreTidy :
      (run_id : ℕ) (run : RunStatus F) (s : WorkspaceStore F) → Held run_id run s → AreTidy s
  unfolding Held
  Held-AreTidy run_id run s h = h.0

module _ {F : Type 0} (settings : AppSettings) (host : Host F) where
  record_result-Held :
      (run_id index key size : ℕ) (run : RunStatus F) (r : RunRecord F) (s : WorkspaceStore F)
      → r.status ≡ run
      → IsTidy run
      → AreTidy s
      → Held run_id run (record_result settings host run_id index key size r s).1
  unfolding record_result
  record_result-Held run_id index key size run r s same tidy h =
      let r' = record r { result_bytes = r.result_bytes + size } in
      let first = save_run-Held run_id run r' s same tidy h in
      or_raise-Keeps (Held run_id run) _ (get_elem? r.status.outcomes index) _ _ first
        (λ outcome found.
          save_run-Held run_id run (record r' { results = put r.results outcome.scenario.id key })
            (save_run run_id r' s).1 same tidy (Held-AreTidy run_id run _ first))

  retained-Held :
      (run_id index key : ℕ) (value : ResultData F) (run : RunStatus F) (r : RunRecord F)
      (s : WorkspaceStore F)
      → r.status ≡ run
      → IsTidy run
      → Held run_id run s
      → Held run_id run
          ((retain_in_cache settings host run_id r key (host.result_bytes value) value >>= λ r'.
              modify (λ (t : WorkspaceStore F). record t { cache = move_to_end key t.cache })
              >> record_result settings host run_id index key (host.result_bytes value) r')
            s).1
  retained-Held run_id index key value run r s same tidy h =
      let size = host.result_bytes value in
      let left = record r { reservation = r.reservation - size } in
      let stored = put s.cache key (value, size) in
      elim (Option-cases (lookup s.cache key)) [
        | inr (v, cached) ↦ rw (retain_cached settings host run_id key size r value s cached) (
            record_result-Held run_id index key size run r
              (record s { cache = move_to_end key s.cache }) same tidy
              (Held-AreTidy run_id run _ (cache-Held run_id run _ s h)))
        | inl absent ↦ elim (Bool-cases (ltb r.reservation size)) [
          | inl over ↦ rw (retain_over settings host run_id key size r value s absent over) h
          | inr room ↦ rw (retain_absent settings host run_id key size r value s absent room) (
              record_result-Held run_id index key size run left
                (record s { cache = move_to_end key stored }) same tidy
                (Held-AreTidy run_id run _ (cache-Held run_id run _ s h)))
        ]
      ]

  retain_result-Held :
      (run_id index : ℕ) (value : ResultData F) (run : RunStatus F)
      → Keeps (Held run_id run) (retain_result settings host run_id index value)
  unfolding retain_result
  retain_result-Held run_id index value run s h =
      get_record-Keeps (Held run_id run) run_id _ s h (λ r found.
        or_raise-Keeps (Held run_id run) _ (get_elem? r.cache_keys index) _ s h (λ key known.
          elim (Bool-cases (
            ltb settings.max_model_bytes (host.result_bytes value)
            || ltb settings.max_run_bytes (r.result_bytes + host.result_bytes value))) [
              | inl large ↦ rw large h
              | inr fits ↦
                  let (same, tidy) = found-Held run_id run r s h found in
                  rw fits (retained-Held run_id index key value run r s same tidy h)
            ]))

module _ (n : Number) (settings : AppSettings) (host : Host n.Float) where
  retain_if_any-Held :
      (run_id index : ℕ) (result : Option (ResultData n.Float)) (run : RunStatus n.Float)
      → Keeps (Held run_id run) (retain_if_any n settings host run_id index result)
  unfolding retain_if_any
  retain_if_any-Held run_id index none run s h = h
  retain_if_any-Held run_id index (some result) run s h =
      retain_result-Held settings host run_id index result run s h

  pub complete_outcome-Keeps :
      (run_id index : ℕ) (status : Status) (result : Option (ResultData n.Float))
      (error : Option Code) (cached : Bool)
      → Keeps AreTidy (complete_outcome n settings host run_id index status result error cached)
  unfolding complete_outcome
  complete_outcome-Keeps run_id index status result error cached s h =
      get_record-Keeps AreTidy run_id _ s h (λ r found.
        or_raise-Keeps AreTidy _ (get_elem? r.status.outcomes index) _ s h (λ o listed.
          elim (Bool-cases (has_cursor o)) [
            | inl done ↦ rw done h
            | inr undone ↦ rw undone (
                bind_leads (Held run_id r.status) AreTidy
                  (retain_if_any n settings host run_id index result)
                  (λ _.
                    update_status run_id
                      (with_closed index status error cached (measured n settings host r result o)))
                  (retain_if_any-Held run_id index result r.status) (Held-AreTidy run_id r.status)
                  (λ _ t held.
                    update_status-AreTidy run_id _ t
                      (λ r' found'.
                        closes index status error cached o (measured n settings host r result o)
                          r.status r'.status listed undone
                          (found-Held run_id r.status r' t held found'))
                      (Held-AreTidy run_id r.status t held))
                  s (found_now run_id r s h found))
          ]))
    where
      closes :
          (index : ℕ) (status : Status) (error : Option Code) (cached : Bool)
          (o0 o : OutcomeSummary n.Float) (run run' : RunStatus n.Float)
          → get_elem? run.outcomes index ≡ some o0
          → has_cursor o0 ≡ false
          → (run' ≡ run) × IsTidy run
          → IsTidy (with_closed index status error cached o run')
      closes index status error cached o0 o run run' listed undone (same, tidy) =
          subst (λ x. IsTidy (with_closed index status error cached o x)) (sym same)
            (with_closed-IsTidy index status error cached o0 o run listed undone tidy)
