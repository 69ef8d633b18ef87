-- ===== src/Wfp/Policy.antt =====
-- WfpPolicy. An enumeration of filters is a loop with no bound of its own: it runs on fuel, one
-- unit for each batch, and `none` says that the fuel ran out.
pub mod Atomic
pub mod Total
pub mod Emptied
pub mod Planned
use netpilot.Base.{
  ℕ, zero, suc, ◌≡◌, refl, Bool, true, false, not, ◌&&◌, ◌||◌, Option, none, some, List, [], ◌∷◌,
  ◌++◌, ◌==◌, if◌then◌else◌,
}
use netpilot.Base.Text.{Bytes, text, str_eq, is_empty}
use netpilot.Std.Number.{stoull, to_string}
use netpilot.Protocol.Types.{AppRuleSpec, AppExecutable}
use netpilot.Wfp.AppId.{hex, rule_context}
use netpilot.Wfp.Engine.{Engine, Filter, FilterAction, block_flow, redirect_flow}

-- A method that returns true, or false with `*error`.
pub data Answer (W : Type 0) : Type 0 where
  done : W → Answer W
  failed : Bytes → W → Answer W

unfoldable pub wfp_error : Bytes → ℕ → Bytes
unfolding to_string
wfp_error action code = action ++ (text " failed (WFP " ++ (to_string code ++ text ")"))

-- FWP_E_FILTER_NOT_FOUND and FWP_E_ALREADY_EXISTS.
abbrev pub filter_not_found : ℕ
filter_not_found = 0x8032_0003

abbrev pub already_exists : ℕ
already_exists = 0x8032_0009

module _ (e : Engine) where
  open e use {
    World, open_engine, add_provider, add_sublayer, add_callout, begin, commit, abort, create_enum,
    next_filters, destroy_enum, delete_filter, add_filter, interface_up,
  }

  unfoldable pub delete_batch : List ℕ → World → Answer World
  delete_batch [] w = done w
  delete_batch (id ∷ rest) w =
      let (status, w') = delete_filter id w in
      let more = delete_batch rest w' in
      if status == 0 || status == filter_not_found
      then more
      else failed (wfp_error (text "FwpmFilterDeleteById") status) w'

  -- `for (;;)`: it ends at an error or at an empty batch.
  unfoldable pub delete_loop : ℕ → World → Option (Answer World)
  unfolding delete_batch
  delete_loop zero w = none
  delete_loop (suc fuel) w =
      let (status, ids, w') = next_filters w in
      if not (status == 0)
      then some (failed (wfp_error (text "FwpmFilterEnum") status) w')
      else elim (delete_batch ids w') [
        | failed error w'' ↦ some (failed error w'')
        | done w'' ↦ elim (is_empty ids) [ true ↦ some (done w'') | false ↦ delete_loop fuel w'' ]
      ]

  close_enum : Answer World → Answer World
  close_enum (done w) = done (destroy_enum w)
  close_enum (failed error w) = failed error (destroy_enum w)

  unfoldable pub delete_provider_filters : ℕ → World → Option (Answer World)
  unfolding close_enum
  delete_provider_filters fuel w =
      let (status, w') = create_enum w in
      if not (status == 0)
      then some (failed (wfp_error (text "FwpmFilterCreateEnumHandle") status) w')
      else elim (delete_loop fuel w') [ none ↦ none | some answer ↦ some (close_enum answer) ]

  pub add_object : Bytes → ℕ × World → Answer World
  add_object action (status, w) =
      if status == 0 || status == already_exists then done w else failed (wfp_error action status) w

  unfoldable pub ensure_provider : World → Answer World
  ensure_provider w = elim (add_object (text "FwpmProviderAdd") (add_provider w)) [
    | failed error w' ↦ failed error w'
    | done w' ↦ elim (add_object (text "FwpmSubLayerAdd") (add_sublayer w')) [
      | failed error w'' ↦ failed error w''
      | done w'' ↦ add_object (text "FwpmCalloutAdd") (add_callout w'')
    ]
  ]

  -- `engine_ != nullptr`, `applied_hash_`, the lines logged, and the platform.
  pub record Policy : Type 0 where
    pub ready : Bool
    pub applied_hash : Bytes
    pub log : List Bytes
    pub world : World

  unfoldable pub initialize : Policy → Answer Policy
  initialize p =
      let (status, w) = open_engine p.world in
      if not (status == 0)
      then failed (wfp_error (text "FwpmEngineOpen") status) (record p { world = w })
      else elim (ensure_provider w) [
        | failed error w' ↦ failed error (record p { ready = true; world = w' })
        | done w' ↦ done (record p { ready = true; world = w' })
      ]

  unfoldable pub interface_available : Bytes → World → Bool
  interface_available value w = elim (stoull value) [
    | none ↦ false
    | some luid ↦ interface_up luid w
  ]

  abbrev pub filter_of : AppRuleSpec → Bytes → Bool → Filter
  filter_of rule app_id block = record {
    app_id = app_id;
    raw_context = rule_context rule.id;
    action = if block then block_flow else redirect_flow;
  }

  unfoldable pub add_executable_filter : AppRuleSpec → AppExecutable → Bool → World → Answer World
  add_executable_filter rule executable block w =
      if is_empty (hex executable.app_id)
      then failed (rule.id ++ text ": invalid WFP App ID") w
      else let (status, w') = add_filter (filter_of rule (hex executable.app_id) block) w in
        if status == 0 then done w' else failed (wfp_error (text "FwpmFilterAdd") status) w'

  unfoldable pub add_executables : AppRuleSpec → Bool → List AppExecutable → World → Answer World
  add_executables rule block [] w = done w
  add_executables rule block (executable ∷ rest) w =
      elim (add_executable_filter rule executable block w) [
        | failed error w' ↦ failed error w'
        | done w' ↦ add_executables rule block rest w'
      ]

  abbrev is_fallback : AppRuleSpec → Bool
  is_fallback rule = str_eq rule.policy (text "fallback")

  fallback_line : AppRuleSpec → Bytes
  fallback_line rule =
      text "[NetPilot App Routing] fallback rule="
      ++ (rule.id ++ (text " adapter=" ++ rule.interface_luid))

  with_log : List Bytes → Answer World → Answer (List Bytes × World)
  with_log log (done w) = done (log, w)
  with_log log (failed error w) = failed error (log, w)

  -- The body of the loop over the rules, with the lines that it logs.
  unfoldable pub add_rule : AppRuleSpec → List Bytes → World → Answer (List Bytes × World)
  unfolding fallback_line with_log
  add_rule rule log w =
      let available = interface_available rule.interface_luid w in
      if not rule.enabled
      then done (log, w)
      else if not available && is_fallback rule
      then done (log ++ fallback_line rule ∷ [], w)
      else with_log log (add_executables rule (not available) rule.executables w)

  unfoldable pub add_rules : List AppRuleSpec → List Bytes → World → Answer (List Bytes × World)
  add_rules [] log w = done (log, w)
  add_rules (rule ∷ rest) log w = elim (add_rule rule log w) [
    | failed error s ↦ failed error s
    | done (log', w') ↦ add_rules rest log' w'
  ]

  commit_policy : Bytes → Policy → Answer Policy
  commit_policy hash p =
      let (status, w) = commit p.world in
      if not (status == 0)
      then failed (wfp_error (text "FwpmTransactionCommit") status) (record p { world = abort w })
      else done (record p { applied_hash = hash; world = w })

  unfoldable pub fill_transaction : Bool → Bytes → List AppRuleSpec → Policy → Answer Policy
  unfolding commit_policy
  fill_transaction master_enabled hash rules p =
      if not master_enabled then commit_policy hash p else elim (add_rules rules p.log p.world) [
        | failed error (log, w) ↦ failed error (record p { log = log; world = abort w })
        | done (log, w) ↦ commit_policy hash (record p { log = log; world = w })
      ]

  unfoldable pub run_transaction :
      ℕ → Bool → Bytes → List AppRuleSpec → Policy → Option (Answer Policy)
  run_transaction fuel master_enabled hash rules p =
      let (status, w) = begin p.world in
      if not (status == 0)
      then some (failed (wfp_error (text "FwpmTransactionBegin") status) (record p { world = w }))
      else elim (delete_provider_filters fuel w) [
        | none ↦ none
        | some (failed error w') ↦ some (failed error (record p { world = abort w' }))
        | some (done w') ↦
            some (fill_transaction master_enabled hash rules (record p { world = w' }))
      ]

  -- WfpPolicy::Apply.
  unfoldable pub apply : ℕ → Bool → Bytes → List AppRuleSpec → Policy → Option (Answer Policy)
  apply fuel master_enabled hash rules p =
      if p.ready then run_transaction fuel master_enabled hash rules p else elim (initialize p) [
        | failed error p' ↦ some (failed error p')
        | done p' ↦ run_transaction fuel master_enabled hash rules p'
      ]

  -- WfpPolicy::Clear; the answer of the deletion is passed over.
  unfoldable pub clear : ℕ → Policy → Option Policy
  clear fuel p =
      if not p.ready
      then some (record p { applied_hash = [] })
      else elim (delete_provider_filters fuel p.world) [
        | none ↦ none
        | some (done w) ↦ some (record p { applied_hash = []; world = w })
        | some (failed error w) ↦ some (record p { applied_hash = []; world = w })
      ]
