-- ===== src/Wfp/Policy/Emptied.antt =====
-- What DeleteProviderFilters leaves.
use netpilot.Base.{
  ℕ, zero, suc, ◌≡◌, refl, sym, ◌∙◌, inl, inr, Bool, true, ◌||◌, some, List, [], ◌∷◌, ◌++◌, map,
  ◌==◌, arith, if◌then◌else◌, All, any_of, Bool-cases, Option-cases,
}
use netpilot.Base.Text.{is_empty}
use netpilot.Wfp.Engine.{Engine, Filter}
use netpilot.Wfp.Policy.{
  done, failed, filter_not_found, delete_batch, delete_loop, close_enum, delete_provider_filters,
}
use netpilot.Wfp.Policy.Atomic.{Answer-cases}

-- A filter with its id.
abbrev pub Entry : Type 0
Entry = ℕ × Filter

abbrev pub has_id : ℕ → List ℕ → Bool
has_id id ids = any_of (λ other. id == other) ids

abbrev pub without : ℕ → List Entry → List Entry
without id [] = []
without id (f ∷ fs) = if f.0 == id then without id fs else f ∷ without id fs

-- Every filter has its id in a list.
abbrev pub Within : List ℕ → List Entry → Type 0
Within ids fs = All (λ f. has_id f.0 ids ≡ true) fs

-- The provider's filters in force, the ids that an enumeration has still to give, and whether an
-- interface is up, which is taken not to change meanwhile.
pub record Provider (e : Engine) : Type 0 where
  pub provided : e.World → List Entry
  pub remaining : e.World → List ℕ
  pub up : ℕ → Bool
  pub create_lists :
      (w : e.World)
      → (e.create_enum w).0 ≡ 0
      → Within (remaining (e.create_enum w).1) (provided (e.create_enum w).1)
  pub next_gives :
      (w : e.World)
      → (e.next_filters w).0 ≡ 0
      → remaining w ≡ (e.next_filters w).1 ++ remaining (e.next_filters w).2
  pub next_last :
      (w : e.World)
      → (e.next_filters w).0 ≡ 0
      → is_empty (e.next_filters w).1 ≡ true
      → remaining w ≡ []
  pub next_keeps : (w : e.World) → provided (e.next_filters w).2 ≡ provided w
  pub delete_removes :
      (id : ℕ) (w : e.World)
      → ((e.delete_filter id w).0 == 0 || (e.delete_filter id w).0 == filter_not_found) ≡ true
      → provided (e.delete_filter id w).1 ≡ without id (provided w)
  pub delete_keeps : (id : ℕ) (w : e.World) → remaining (e.delete_filter id w).1 ≡ remaining w
  pub destroy_keeps : (w : e.World) → provided (e.destroy_enum w) ≡ provided w
  pub add_appends :
      (f : Filter) (w : e.World)
      → (e.add_filter f w).0 ≡ 0
      → map (λ (f : Entry). f.1) (provided (e.add_filter f w).1)
        ≡ map (λ (f : Entry). f.1) (provided w) ++ f ∷ []
  pub commit_keeps : (w : e.World) → (e.commit w).0 ≡ 0 → provided (e.commit w).1 ≡ provided w
  pub up_steady : (luid : ℕ) (w : e.World) → e.interface_up luid w ≡ up luid

without-Within :
    (id : ℕ) (ids : List ℕ) (fs : List Entry) → Within (id ∷ ids) fs → Within ids (without id fs)
without-Within id ids [] h = tt
without-Within id ids (f ∷ fs) (here, later) =
    let rest = without-Within id ids fs later in
    elim (Bool-cases (f.0 == id)) [
      | inl same ↦ rw same rest
      | inr other ↦ rw other (ground (arith, here, other), rest)
    ]

Within-nil : (ids : List ℕ) (fs : List Entry) → ids ≡ [] → Within ids fs → fs ≡ []
Within-nil ids [] e h = refl
Within-nil ids (f ∷ fs) e h = absurd (ground (arith, e, h.0))

append_last : (ids more : List ℕ) → is_empty ids ≡ true → ids ++ more ≡ [] → more ≡ []
append_last [] more h e = e
append_last (id ∷ ids) more h e = absurd (cc h)

module _ (e : Engine) (t : Provider e) where
  open e use {World, destroy_enum}
  open t use {provided, remaining}

  delete_batch_removes :
      (ids more : List ℕ) (w w' : World)
      → delete_batch e ids w ≡ done w'
      → Within (ids ++ more) (provided w)
      → Within more (provided w')
  unfolding delete_batch
  delete_batch_removes [] more w w' h inside =
      let e : w ≡ w' = ground (arith, h) in rw (sym e) inside
  delete_batch_removes (id ∷ ids) more w w' h inside =
      let (status, w1) = e.delete_filter id w in
      elim (Bool-cases (status == 0 || status == filter_not_found)) [
        | inr kept ↦ absurd (ground (arith, kept, h))
        | inl gone ↦
            let rest : delete_batch e ids w1 ≡ done w' = ground (arith, gone, h) in
            let fewer = without-Within id (ids ++ more) (provided w) inside in
            delete_batch_removes ids more w1 w' rest (rw (t.delete_removes id w gone) fewer)
      ]

  delete_batch_remaining :
      (ids : List ℕ) (w w' : World) → delete_batch e ids w ≡ done w' → remaining w' ≡ remaining w
  unfolding delete_batch
  delete_batch_remaining [] w w' h = let e : w ≡ w' = ground (arith, h) in rw (sym e) refl
  delete_batch_remaining (id ∷ ids) w w' h =
      let (status, w1) = e.delete_filter id w in
      elim (Bool-cases (status == 0 || status == filter_not_found)) [
        | inr kept ↦ absurd (ground (arith, kept, h))
        | inl gone ↦
            let rest : delete_batch e ids w1 ≡ done w' = ground (arith, gone, h) in
            delete_batch_remaining ids w1 w' rest ∙ t.delete_keeps id w
      ]

  delete_loop_empties :
      (fuel : ℕ) (w w' : World)
      → delete_loop e fuel w ≡ some (done w')
      → Within (remaining w) (provided w)
      → provided w' ≡ []
  unfolding delete_loop
  delete_loop_empties zero w w' h inside = absurd (cc h)
  delete_loop_empties (suc fuel) w w' h inside =
      let (status, ids, w1) = e.next_filters w in
      elim (Bool-cases (status == 0)) [
        | inr broken ↦ absurd (ground (arith, broken, h))
        | inl given ↦
            let ok : status ≡ 0 = ground (arith, given) in
            elim (Answer-cases (delete_batch e ids w1)) [
              | inr (error, w2, refused) ↦ absurd (ground (arith, given, refused, h))
              | inl (w2, emptied) ↦
                  let split : Within (ids ++ remaining w1) (provided w1) =
                    rw (t.next_keeps w, sym (t.next_gives w ok)) inside in
                  let left = delete_batch_removes ids (remaining w1) w1 w2 emptied split in
                  let same = delete_batch_remaining ids w1 w2 emptied in
                  elim (Bool-cases (is_empty ids)) [
                    | inr more ↦
                        let rest : delete_loop e fuel w2 ≡ some (done w') =
                          ground (arith, given, emptied, more, h) in
                        delete_loop_empties fuel w2 w' rest (rw same left)
                    | inl last ↦
                        let end : w2 ≡ w' = ground (arith, given, emptied, last, h) in
                        let over : remaining w1 ≡ [] =
                          append_last ids (remaining w1) last
                            (sym (t.next_gives w ok) ∙ t.next_last w ok last) in
                        rw (sym end) (Within-nil (remaining w1) (provided w2) over left)
                  ]
            ]
      ]

  -- If DeleteProviderFilters succeeds, none of the provider's filters is left.
  pub delete_provider_filters_empties :
      (fuel : ℕ) (w w' : World)
      → delete_provider_filters e fuel w ≡ some (done w')
      → provided w' ≡ []
  unfolding delete_provider_filters close_enum
  delete_provider_filters_empties fuel w w' h =
      let (status, w1) = e.create_enum w in
      elim (Bool-cases (status == 0)) [
        | inr broken ↦ absurd (ground (arith, broken, h))
        | inl made ↦ elim (Option-cases (delete_loop e fuel w1)) [
          | inl out ↦ absurd (ground (arith, made, out, h))
          | inr (failed error w2, ran) ↦ absurd (ground (arith, made, ran, h))
          | inr (done w2, ran) ↦
              let e : destroy_enum w2 ≡ w' = ground (arith, made, ran, h) in
              let inside = t.create_lists w (ground (arith, made)) in
              rw (sym e, t.destroy_keeps w2) (delete_loop_empties fuel w1 w2 ran inside)
        ]
      ]
