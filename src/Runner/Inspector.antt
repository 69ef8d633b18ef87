-- ===== src/Runner/Inspector.antt =====
-- windows/runner/windows_app_inspector.h and .cpp: the choice and the inspection of an application.
-- Wide strings are lists of code units.
pub mod Chosen
use netpilot.Base.{
  ℕ, suc, ◌*◌, ◌≤◌, Bool, true, false, not, ◌&&◌, ◌||◌, Option, none, some, List, [], ◌∷◌, ◌++◌,
  ltb, leb, if◌then◌else◌, length, arith,
}
use netpilot.Base.Text.{Bytes, text, str_eq, is_empty}
use netpilot.Wfp.AppId.{app_id_hex}
use netpilot.Routes.Load.{after}
use netpilot.Runner.Base64.{base64}

pub record InspectedExecutable : Type 0 where
  pub path : Bytes
  pub app_id : Bytes
  pub display_name : Bytes
  pub publisher : Bytes
  pub is_signed : Bool
  pub selected : Bool

pub record InspectedApplication : Type 0 where
  pub main : InspectedExecutable
  pub helpers : List InspectedExecutable
  pub icon_png_base64 : Bytes

-- What recursive_directory_iterator meets: an entry, what is inside of it and what comes after it. An
-- error ends the tree.
pub record DirectoryEntry : Type 0 where
  pub path : Bytes
  pub is_directory : Bool
  -- A symbolic link or a reparse point.
  pub is_link : Bool
  pub is_regular_file : Bool

pub data Tree : Type 0 where
  end : Tree
  entry : DirectoryEntry → (inside next : Tree) → Tree

-- How the dialog ends.
pub data Shown : Type 0 where
  chosen cancelled broken : Shown

-- Windows and the file system. `final_path` is CreateFile with GetFinalPathNameByHandle, `none` if
-- either fails or the path does not fit; `png` is the picture that IconPngBase64 encodes.
pub record Shell : Type 0 where
  pub dialog : Bool
  pub show : Shown
  pub picked : Option Bytes
  pub final_path : Bytes → Option Bytes
  pub extension : Bytes → Bytes
  pub file_name : Bytes → Bytes
  pub same_text : Bytes → Bytes → Bool
  pub utf8 : Bytes → Bytes
  pub app_id_blob : Bytes → Option Bytes
  pub verify_signature : Bytes → Bool
  pub publisher : Bytes → Bytes
  pub png : Bytes → Option Bytes
  pub directory_tree : Bytes → Tree

abbrev pub max_candidates : ℕ
max_candidates = 200

unfoldable pub is_same_publisher : (main helper : InspectedExecutable) → Bool
unfolding str_eq
is_same_publisher main helper =
    main.is_signed
    && (helper.is_signed
        && (not (is_empty main.publisher) && str_eq helper.publisher main.publisher))

module _ (os : Shell) where
  -- Without the prefix `\\?\`.
  unfoldable pub canonical_path : Bytes → Bytes
  unfolding after
  canonical_path input = elim (os.final_path input) [
    | none ↦ []
    | some value ↦ elim (after (text "\\\\?\\") value) [ none ↦ value | some rest ↦ rest ]
  ]

  unfoldable pub app_id_of : Bytes → Bytes
  unfolding app_id_hex
  app_id_of path = elim (os.app_id_blob path) [ none ↦ [] | some blob ↦ app_id_hex blob ]

  -- `output` has 512 * 1024 bytes.
  unfoldable pub icon_png_base64 : Bytes → Bytes
  unfolding base64
  icon_png_base64 path = elim (os.png path) [
    | none ↦ []
    | some picture ↦ if leb (length picture) (512 * 1024) then base64 picture else []
  ]

  -- The path, or the error, which is empty where there is nothing to report.
  unfoldable pub pick_exe : Option Bytes × Bytes
  pick_exe =
      if not os.dialog
      then (none, text "Could not open the Windows application picker")
      else elim os.show [
        | chosen ↦ (os.picked, [])
        | cancelled ↦ (none, [])
        | broken ↦ (none, text "Windows application picker failed")
      ]

  unfoldable pub executable_of : Bytes → InspectedExecutable
  unfolding app_id_of
  executable_of path = record {
    path = os.utf8 path;
    app_id = app_id_of path;
    display_name = os.utf8 (os.file_name path);
    publisher = if os.verify_signature path then os.publisher path else [];
    is_signed = os.verify_signature path;
    selected = false;
  }

  -- The executable, or the error.
  unfoldable pub inspect_exe : Bytes → Option InspectedExecutable × Bytes
  unfolding canonical_path executable_of
  inspect_exe path =
      let canonical = canonical_path path in
      if is_empty canonical || not (os.same_text (os.extension canonical) (text ".exe"))
      then (none, text "Selected file is not a readable Win32 EXE")
      else if is_empty (app_id_of canonical)
      then (none, text "WFP could not derive an App ID for the selected EXE")
      else (some (executable_of canonical), [])

  unfoldable pub is_candidate : Bytes → DirectoryEntry → Bool
  is_candidate picked e =
      not (e.is_directory && e.is_link)
      && (e.is_regular_file
          && (os.same_text (os.extension e.path) (text ".exe") && not (os.same_text e.path picked)))

  -- The helpers that one entry adds.
  unfoldable pub helper_of : Bytes → InspectedExecutable → DirectoryEntry → List InspectedExecutable
  unfolding inspect_exe is_same_publisher is_candidate
  helper_of picked main e =
      if is_candidate picked e
      then (elim (inspect_exe e.path).0 [
        | none ↦ []
        | some helper ↦ record helper { selected = is_same_publisher main helper } ∷ []
      ])
      else []

  -- The loop, from so many candidates on: the helpers, and the candidates then.
  unfoldable pub walk : Bytes → InspectedExecutable → Tree → ℕ → List InspectedExecutable × ℕ
  unfolding helper_of
  walk picked main end candidates = ([], candidates)
  walk picked main (entry e inside next) candidates =
      let counted = if is_candidate picked e then suc candidates else candidates in
      let (inner, deeper) = walk picked main inside counted in
      let candidates' = if e.is_directory && not e.is_link then deeper else counted in
      let (rest, last) = walk picked main next candidates' in
      let below = if e.is_directory && not e.is_link then inner else [] in
      if ltb candidates max_candidates
      then (helper_of picked main e ++ (below ++ rest), last)
      else ([], candidates)

  unfoldable pub is_netpilot : Bytes → Bool
  is_netpilot name =
      os.same_text name (text "NetPilotService.exe")
      || (os.same_text name (text "netpilot_desktop.exe")
          || os.same_text name (text "NetPilotMaintenance.exe"))

  unfoldable pub application_of : Bytes → InspectedExecutable → InspectedApplication
  unfolding walk
  application_of picked executable =
      let main = record executable { selected = true } in
      record {
        main = main;
        helpers = (walk picked main (os.directory_tree picked) 0).0;
        icon_png_base64 = icon_png_base64 (canonical_path picked);
      }

  -- SelectAndInspect: the application, or the error.
  unfoldable pub select_and_inspect : Option InspectedApplication × Bytes
  unfolding application_of
  select_and_inspect =
      let (picked, error) = pick_exe in
      elim picked [
        | none ↦ (none, error)
        | some path ↦
            let (inspected, failure) = inspect_exe path in
            if is_netpilot (os.file_name path)
            then (none, text "NetPilot components cannot be routed through their own proxy")
            else elim inspected [
              | none ↦ (none, failure)
              | some executable ↦ (some (application_of path executable), [])
            ]
      ]
