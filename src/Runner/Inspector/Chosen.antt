-- ===== src/Runner/Inspector/Chosen.antt =====
-- What SelectAndInspect gives.
use netpilot.Base.{
  ℕ, suc, ◌+◌, ◌≤◌, ◌≡◌, ◌⊎◌, ◌↔◌, ◌==◌, ==_iff, [], ◌∷◌, ◌++◌, Bool, refl, ap, subst, sym, inl,
  inr, true, false, not, ◌&&◌, ◌||◌, some, ltb, if◌then◌else◌, length, length-append, arith, All,
  All-append, Bool-cases, Option-cases,
}
use netpilot.Base.Text.{Bytes, text, is_empty, str_eq_iff}
use netpilot.Routes.Load.{after}
use netpilot.Wfp.AppId.{app_id_hex}
use netpilot.Runner.Inspector.{
  InspectedExecutable, InspectedApplication, DirectoryEntry, Tree, end, entry, Shell,
  max_candidates, inspect_exe, is_same_publisher, is_candidate, helper_of, walk, is_netpilot,
  application_of, select_and_inspect, pick_exe, executable_of, canonical_path, app_id_of,
}

-- What stands behind a part that is taken off.
after-IsFront : (part s rest : Bytes) → after part s ≡ some rest → s ≡ part ++ rest
unfolding after
after-IsFront [] s rest h = ground (arith, h)
after-IsFront (c ∷ part) [] rest h = absurd (ground (arith, h))
after-IsFront (c ∷ part) (d ∷ s) rest h = elim (Bool-cases (c == d)) [
  | inr other ↦ absurd (ground (arith, other, h))
  | inl same ↦
      let e = after-IsFront part s rest (ground (arith, same, h)) in cc ((==_iff c d).0 same, e)
]

-- Both are signed, by one publisher that is known.
abbrev pub OnePublisher : (main helper : InspectedExecutable) → Type 0
OnePublisher main helper =
    (main.is_signed ≡ true)
    × ((helper.is_signed ≡ true)
        × ((is_empty main.publisher ≡ false) × (helper.publisher ≡ main.publisher)))

is_same_publisher_iff :
    (main helper : InspectedExecutable)
    → (is_same_publisher main helper ≡ true) ↔ OnePublisher main helper
unfolding is_same_publisher
is_same_publisher_iff main helper =
    let same = str_eq_iff helper.publisher main.publisher in
    (
      λ h.
          (ground (arith, h), (ground (arith, h), (ground (arith, h), same.0 (ground (arith, h))))),
      λ h. rw (h.0, h.1.0, h.1.1.0, same.1 h.1.1.1) refl,
    )

module _ (os : Shell) where
  -- The executable is about the file that the system resolves a path to: an EXE, with the App ID
  -- that the system derives and what it says of the signature.
  pub record IsInspected (input : Bytes) (x : InspectedExecutable) : Type 0 where
    pub file : Bytes
    pub resolved :
        (os.final_path input ≡ some file) ⊎ (os.final_path input ≡ some (text "\\\\?\\" ++ file))
    pub is_exe : os.same_text (os.extension file) (text ".exe") ≡ true
    pub blob : Bytes
    pub derived : os.app_id_blob file ≡ some blob
    pub app_id : x.app_id ≡ app_id_hex blob
    pub identified : is_empty x.app_id ≡ false
    pub path : x.path ≡ os.utf8 file
    pub is_signed : x.is_signed ≡ os.verify_signature file
    pub publisher : x.publisher ≡ (if os.verify_signature file then os.publisher file else [])

  canonical_path_resolved :
      (path : Bytes)
      → is_empty (canonical_path os path) ≡ false
      → (os.final_path path ≡ some (canonical_path os path))
        ⊎ (os.final_path path ≡ some (text "\\\\?\\" ++ canonical_path os path))
  unfolding canonical_path
  canonical_path_resolved path h = elim (Option-cases (os.final_path path)) [
    | inl none' ↦ absurd (ground (arith, none', h))
    | inr (value, e) ↦ elim (Option-cases (after (text "\\\\?\\") value)) [
      | inl plain ↦ inl (rw (e, canonical_path, plain) refl)
      | inr (rest, cut) ↦
          inr
            (rw (e, canonical_path, cut) (ap some (after-IsFront (text "\\\\?\\") value rest cut)))
    ]
  ]

  app_id_of_derived :
      (file : Bytes)
      → is_empty (app_id_of os file) ≡ false
      → (blob : Bytes) × (os.app_id_blob file ≡ some blob) × (app_id_of os file ≡ app_id_hex blob)
  unfolding app_id_of
  app_id_of_derived file h = elim (Option-cases (os.app_id_blob file)) [
    | inl none' ↦ absurd (ground (arith, none', h))
    | inr (blob, e) ↦ (blob, e, rw (app_id_of, e) refl)
  ]

  -- Whether it is selected is set afterwards.
  inspect_exe-IsInspected :
      (path : Bytes) (x : InspectedExecutable) (selected : Bool)
      → (inspect_exe os path).0 ≡ some x
      → IsInspected path (record x { selected = selected })
  unfolding inspect_exe executable_of
  inspect_exe-IsInspected path x selected h =
      let c = canonical_path os path in
      elim (Bool-cases (is_empty c || not (os.same_text (os.extension c) (text ".exe")))) [
        | inl bad ↦ absurd (ground (arith, bad))
        | inr good ↦ elim (Bool-cases (is_empty (app_id_of os c))) [
          | inl none' ↦ absurd (ground (arith, good, none'))
          | inr there ↦
              let e : some (executable_of os c) ≡ some x = ground (arith, good, there, h) in
              let f : executable_of os c ≡ x = ground (arith, e) in
              let (blob, derived, is_hex) = app_id_of_derived c there in
              subst (λ y. IsInspected path (record y { selected = selected })) f
                (record {
                  file = c;
                  resolved = canonical_path_resolved path (ground (arith, good));
                  is_exe = ground (arith, good);
                  blob = blob;
                  derived = derived;
                  app_id = is_hex;
                  identified = there;
                  path = refl;
                  is_signed = refl;
                  publisher = refl;
                })
        ]
      ]

  -- A helper is another file than the one that was picked, and is selected if and only if it and
  -- the main executable are signed by one publisher that is known.
  pub record IsHelper (picked : Bytes) (main helper : InspectedExecutable) : Type 0 where
    pub path : Bytes
    pub is_other : os.same_text path picked ≡ false
    pub inspected : IsInspected path helper
    pub selected : (helper.selected ≡ true) ↔ OnePublisher main helper

  length-helper_of :
      (picked : Bytes) (main : InspectedExecutable) (e : DirectoryEntry)
      → length (helper_of os picked main e) ≤ (if is_candidate os picked e then 1 else 0)
  unfolding helper_of
  length-helper_of picked main e = elim (Option-cases (inspect_exe os e.path).0) [
    | inl n ↦ ground (arith, n)
    | inr (h, s) ↦ ground (arith, s)
  ]

  helper_of-All :
      (picked : Bytes) (main : InspectedExecutable) (e : DirectoryEntry)
      → All (IsHelper picked main) (helper_of os picked main e)
  unfolding helper_of is_candidate
  helper_of-All picked main e = elim (Bool-cases (is_candidate os picked e)) [
    | inr other ↦ rw other tt
    | inl candidate ↦ elim (Option-cases (inspect_exe os e.path).0) [
      | inl n ↦ rw (candidate, n) tt
      | inr (h, s) ↦
          rw (candidate, s)
            (
              record {
                path = e.path;
                is_other = ground (arith, candidate);
                inspected = inspect_exe-IsInspected e.path h _ s;
                selected = is_same_publisher_iff main h;
              },
              tt,
            )
    ]
  ]

  -- The walk never passes the limit, and adds at most one helper for each candidate.
  walk_bounded :
      (picked : Bytes) (main : InspectedExecutable) (t : Tree) (c : ℕ)
      → c ≤ max_candidates
      → (length (walk os picked main t c).0 + c ≤ (walk os picked main t c).1)
        × ((walk os picked main t c).1 ≤ max_candidates)
  unfolding walk
  walk_bounded picked main end c h = (omega arith, h)
  walk_bounded picked main (entry e inside next) c h = elim (Bool-cases (ltb c max_candidates)) [
    | inr stop ↦ rw stop (omega arith, h)
    | inl go ↦
        let counted = if is_candidate os picked e then suc c else c in
        let step : length (helper_of os picked main e) + c ≤ counted =
          ground (arith, length-helper_of picked main e) in
        let room : counted ≤ max_candidates = ground (arith, go) in
        let (low, high) = walk_bounded picked main inside counted room in
        elim (Bool-cases (e.is_directory && not e.is_link)) [
          | inl deep ↦
              let (low', high') =
                walk_bounded picked main next (walk os picked main inside counted).1 high in
              rw (go, deep, length-append, length-append (walk os picked main inside counted).0)
                (omega arith, high')
          | inr flat ↦
              let (low', high') = walk_bounded picked main next counted room in
              rw (go, flat, length-append) (omega arith, high')
        ]
  ]

  walk-All :
      (picked : Bytes) (main : InspectedExecutable) (t : Tree) (c : ℕ)
      → All (IsHelper picked main) (walk os picked main t c).0
  unfolding walk
  walk-All picked main end c = tt
  walk-All picked main (entry e inside next) c = elim (Bool-cases (ltb c max_candidates)) [
    | inr stop ↦ rw stop tt
    | inl go ↦
        let counted = if is_candidate os picked e then suc c else c in
        let here = helper_of-All picked main e in
        elim (Bool-cases (e.is_directory && not e.is_link)) [
          | inl deep ↦
              rw (go, deep)
                (All-append _ _ _ here (
                  All-append _ _ _ (walk-All picked main inside counted)
                    (walk-All picked main next _)))
          | inr flat ↦ rw (go, flat) (All-append _ _ _ here (walk-All picked main next counted))
        ]
  ]

  -- The dialog picked a path, whose file has not the name of a part of NetPilot, and the main
  -- executable is what the system says of that file.
  pub record IsChosen (application : InspectedApplication) : Type 0 where
    pub path : Bytes
    pub picked : os.picked ≡ some path
    pub foreign : is_netpilot os (os.file_name path) ≡ false
    pub inspected : IsInspected path application.main
    pub selected : application.main.selected ≡ true
    pub few : length application.helpers ≤ max_candidates
    pub helpers : All (IsHelper path application.main) application.helpers

  pick_exe_picked : (path : Bytes) → (pick_exe os).0 ≡ some path → os.picked ≡ some path
  unfolding pick_exe
  pick_exe_picked path h = ground (arith, h)

  application_of-IsChosen :
      (path : Bytes) (executable : InspectedExecutable)
      → (pick_exe os).0 ≡ some path
      → is_netpilot os (os.file_name path) ≡ false
      → (inspect_exe os path).0 ≡ some executable
      → IsChosen (application_of os path executable)
  unfolding application_of
  application_of-IsChosen path executable p foreign inspected =
      let main = record executable { selected = true } in
      let tree = os.directory_tree path in
      let (bound, limit) = walk_bounded path main tree 0 (omega arith) in
      record {
        path = path;
        picked = pick_exe_picked path p;
        foreign = foreign;
        inspected = inspect_exe-IsInspected path executable true inspected;
        selected = refl;
        few = omega (arith, bound, limit);
        helpers = walk-All path main tree 0;
      }

  -- If SelectAndInspect gives an application, the dialog picked a path, its file name is none of
  -- NetPilot's own, and the main executable has the path, the App ID, the signature and the publisher
  -- of the EXE to which the system resolves that path, and is selected. There are at most 200 helpers,
  -- each with what the system says of another EXE in the same way, and a helper is selected if and
  -- only if it and the main executable are signed by the same publisher, which is not empty.
  pub select_and_inspect-IsChosen :
      (application : InspectedApplication)
      → (select_and_inspect os).0 ≡ some application
      → IsChosen application
  unfolding select_and_inspect pick_exe
  select_and_inspect-IsChosen application h = elim (Option-cases (pick_exe os).0) [
    | inl closed ↦ absurd (ground (arith, closed))
    | inr (path, p) ↦ elim (Bool-cases (is_netpilot os (os.file_name path))) [
      | inl own ↦ absurd (ground (arith, p, own))
      | inr foreign ↦ elim (Option-cases (inspect_exe os path).0) [
        | inl bad ↦ absurd (ground (arith, p, foreign, bad))
        | inr (executable, inspected) ↦
            let e : some (application_of os path executable) ≡ some application =
              ground (arith, p, foreign, inspected, h) in
            let f : application_of os path executable ≡ application = ground (arith, e) in
            rw (sym f) (application_of-IsChosen path executable p foreign inspected)
      ]
    ]
  ]
