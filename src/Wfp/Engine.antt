-- ===== src/Wfp/Engine.antt =====
-- What WfpPolicy calls of the filtering platform, and the documented behaviour of its transactions.
use netpilot.Base.{ℕ, ◌≤◌, ◌<◌, ◌≡◌, false, Bool, Option, some, List, ◌==◌}
use netpilot.Base.Text.{Bytes, is_empty}

pub data FilterAction : Type 0 where
  block_flow redirect_flow : FilterAction

-- A filter of AddExecutableFilter: the App ID that it matches, its context and its action.
pub record Filter : Type 0 where
  pub app_id : Bytes
  pub raw_context : ℕ
  pub action : FilterAction

-- Each call takes the state of the platform and gives a status code and the next state.
pub record Engine : Type 1 where
  pub World : Type 0
  pub open_engine : World → ℕ × World
  pub add_provider : World → ℕ × World
  pub add_sublayer : World → ℕ × World
  pub add_callout : World → ℕ × World
  pub begin : World → ℕ × World
  pub commit : World → ℕ × World
  pub abort : World → World
  pub create_enum : World → ℕ × World
  -- FwpmFilterEnum0: a status code, and the ids of the next filters of the provider.
  pub next_filters : World → ℕ × List ℕ × World
  pub destroy_enum : World → World
  pub delete_filter : ℕ → World → ℕ × World
  pub add_filter : Filter → World → ℕ × World
  -- GetIfEntry2 succeeds and the operational status is up.
  pub interface_up : ℕ → World → Bool

-- The filters in force, and in a transaction those that an abort brings back; a commit that fails
-- leaves the transaction open.
pub record Transactions (e : Engine) : Type 0 where
  pub installed : e.World → List Filter
  pub saved : e.World → Option (List Filter)
  pub begin_saves : (w : e.World) → (e.begin w).0 ≡ 0 → saved (e.begin w).1 ≡ some (installed w)
  pub begin_fails : (w : e.World) → installed (e.begin w).1 ≡ installed w
  pub abort_restores :
      (w : e.World) (filters : List Filter)
      → saved w ≡ some filters
      → installed (e.abort w) ≡ filters
  pub create_saved : (w : e.World) → saved (e.create_enum w).1 ≡ saved w
  pub next_saved : (w : e.World) → saved (e.next_filters w).2 ≡ saved w
  pub destroy_saved : (w : e.World) → saved (e.destroy_enum w) ≡ saved w
  pub delete_saved : (id : ℕ) (w : e.World) → saved (e.delete_filter id w).1 ≡ saved w
  pub add_saved : (f : Filter) (w : e.World) → saved (e.add_filter f w).1 ≡ saved w
  pub commit_fails : (w : e.World) → ((e.commit w).0 == 0) ≡ false → saved (e.commit w).1 ≡ saved w
  pub open_installed : (w : e.World) → installed (e.open_engine w).1 ≡ installed w
  pub provider_installed : (w : e.World) → installed (e.add_provider w).1 ≡ installed w
  pub sublayer_installed : (w : e.World) → installed (e.add_sublayer w).1 ≡ installed w
  pub callout_installed : (w : e.World) → installed (e.add_callout w).1 ≡ installed w

-- The filters that an enumeration has still to give: a batch that is not empty takes some of them,
-- and no deletion adds to them.
pub record Enumeration (e : Engine) : Type 0 where
  pub pending : e.World → ℕ
  pub next_pending :
      (w : e.World)
      → (e.next_filters w).0 ≡ 0
      → is_empty (e.next_filters w).1 ≡ false
      → pending (e.next_filters w).2 < pending w
  pub delete_pending : (id : ℕ) (w : e.World) → pending (e.delete_filter id w).1 ≤ pending w
