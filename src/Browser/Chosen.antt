-- ===== src/Browser/Chosen.antt =====
-- Which processes Reconnect ends.
use netpilot.Base.{
  ℕ, ◌<◌, ◌≡◌, refl, sym, ◌⊎◌, inl, inr, true, ◌++◌, append-nil, append_assoc, if◌then◌else◌, ◌&&◌,
  some, List, [], ◌∷◌, arith, All, ltb, ◌==◌, Bool-cases, Option-cases,
}
use netpilot.Base.Text.{Bytes}
use netpilot.Protocol.Types.{RestartedProcess}
use netpilot.Browser.{
  Cidr, TcpRow, Windows, parse_cidrs, contains_address, insert_pid, tcp_owners_of, udp_owners_of,
  insert_all, network_service, has_part, tcp_owners, udp_owners, is_known_chromium, end_process,
  try_process, restart_all, candidates, reconnect, too_large,
}

-- The process has a TCP connection to one of the destinations.
abbrev pub ConnectsTo : List Cidr → ℕ → List TcpRow → Type 0
ConnectsTo cidrs pid [] = ⊥
ConnectsTo cidrs pid (row ∷ rest) =
    ((row.owner ≡ pid) × (contains_address cidrs row.remote ≡ true)) ⊎ ConnectsTo cidrs pid rest

abbrev pub HasEndpoint : ℕ → List ℕ → Type 0
HasEndpoint pid [] = ⊥
HasEndpoint pid (owner ∷ rest) = (owner ≡ pid) ⊎ HasEndpoint pid rest

module _ (P : ℕ → Type 0) where
  insert_pid-All : (pid : ℕ) (pids : List ℕ) → P pid → All P pids → All P (insert_pid pid pids)
  unfolding insert_pid
  insert_pid-All pid [] h hs = (h, tt)
  insert_pid-All pid (x ∷ rest) h hs = elim (Bool-cases (ltb pid x)) [
    | inl below ↦ rw below (h, hs)
    | inr above ↦ elim (Bool-cases (pid == x)) [
      | inl same ↦ rw (above, same) hs
      | inr other ↦ rw (above, other) (hs.0, insert_pid-All pid rest h hs.1)
    ]
  ]

  insert_all-All : (new pids : List ℕ) → All P new → All P pids → All P (insert_all new pids)
  unfolding insert_all
  insert_all-All [] pids hn hs = hs
  insert_all-All (pid ∷ rest) pids hn hs =
      insert_all-All rest (insert_pid pid pids) hn.1 (insert_pid-All pid pids hn.0 hs)

module _ {P Q : ℕ → Type 0} (f : (pid : ℕ) → P pid → Q pid) where
  All-map : (pids : List ℕ) → All P pids → All Q pids
  All-map [] hs = tt
  All-map (pid ∷ rest) hs = (f pid hs.0, All-map rest hs.1)

tcp_owners_of-All :
    (cidrs : List Cidr) (rows : List TcpRow)
    → All (λ pid. (1 < pid) × ConnectsTo cidrs pid rows) (tcp_owners_of cidrs rows)
unfolding tcp_owners_of
tcp_owners_of-All cidrs [] = tt
tcp_owners_of-All cidrs (row ∷ rest) =
    let further : All (λ pid. (1 < pid) × ConnectsTo cidrs pid (row ∷ rest))
        (tcp_owners_of cidrs rest) =
      All-map (λ pid h. (h.0, inr h.1)) (tcp_owners_of cidrs rest) (tcp_owners_of-All cidrs rest) in
    elim (Bool-cases (ltb 1 row.owner && contains_address cidrs row.remote)) [
      | inr b ↦ rw b further
      | inl b ↦ rw b (
          insert_pid-All (λ pid. (1 < pid) × ConnectsTo cidrs pid (row ∷ rest)) row.owner
            (tcp_owners_of cidrs rest) (ground (arith, b), inl (refl, ground (arith, b))) further)
    ]

udp_owners_of-All :
    (rows : List ℕ) → All (λ pid. (1 < pid) × HasEndpoint pid rows) (udp_owners_of rows)
unfolding udp_owners_of
udp_owners_of-All [] = tt
udp_owners_of-All (owner ∷ rest) =
    let further : All (λ pid. (1 < pid) × HasEndpoint pid (owner ∷ rest)) (udp_owners_of rest) =
      All-map (λ pid h. (h.0, inr h.1)) (udp_owners_of rest) (udp_owners_of-All rest) in
    elim (Bool-cases (ltb 1 owner)) [
      | inr b ↦ rw b further
      | inl b ↦ rw b (
          insert_pid-All (λ pid. (1 < pid) × HasEndpoint pid (owner ∷ rest)) owner
            (udp_owners_of rest) (ground (arith, b), inl refl) further)
    ]

-- The processes that were ended, the last one at the end.
pub record Processes (os : Windows) : Type 0 where
  pub ended : os.World → List ℕ
  pub terminates :
      (pid : ℕ) (w : os.World)
      → ended (os.terminate pid w).1 ≡ ended w ++ (if (os.terminate pid w).0 then pid ∷ [] else [])

module _ (os : Windows) where
  open os use {World}

  -- A process other than the system's, of which the tables show a TCP connection to one of the
  -- destinations or a UDP endpoint.
  abbrev pub Concerned : List Cidr → World → ℕ → Type 0
  Concerned cidrs w pid =
      (1 < pid)
      × (((rows : List TcpRow) × (os.tcp_table w ≡ some rows) × ConnectsTo cidrs pid rows)
          ⊎ ((rows : List ℕ) × (os.udp_table w ≡ some rows) × HasEndpoint pid rows))

  tcp_owners-All : (cidrs : List Cidr) (w : World) → All (Concerned cidrs w) (tcp_owners os cidrs w)
  unfolding tcp_owners
  tcp_owners-All cidrs w = elim (Bool-cases (too_large (os.tcp_size w))) [
    | inl large ↦ rw large tt
    | inr sized ↦ elim (Option-cases (os.tcp_table w)) [
      | inl failed ↦ rw (sized, failed) tt
      | inr (rows, table) ↦
          let meets : (pid : ℕ) → (1 < pid) × ConnectsTo cidrs pid rows → Concerned cidrs w pid =
            λ pid h. (h.0, inl (rows, table, h.1)) in
          let all : All (Concerned cidrs w) (tcp_owners_of cidrs rows) =
            All-map meets (tcp_owners_of cidrs rows) (tcp_owners_of-All cidrs rows) in
          let e : tcp_owners os cidrs w ≡ tcp_owners_of cidrs rows = ground (arith, sized, table) in
          rw e all
    ]
  ]

  udp_owners-All : (cidrs : List Cidr) (w : World) → All (Concerned cidrs w) (udp_owners os w)
  unfolding udp_owners
  udp_owners-All cidrs w = elim (Bool-cases (too_large (os.udp_size w))) [
    | inl large ↦ rw large tt
    | inr sized ↦ elim (Option-cases (os.udp_table w)) [
      | inl failed ↦ rw (sized, failed) tt
      | inr (rows, table) ↦
          let meets : (pid : ℕ) → (1 < pid) × HasEndpoint pid rows → Concerned cidrs w pid =
            λ pid h. (h.0, inr (rows, table, h.1)) in
          let all : All (Concerned cidrs w) (udp_owners_of rows) =
            All-map meets (udp_owners_of rows) (udp_owners_of-All rows) in
          let e : udp_owners os w ≡ udp_owners_of rows = ground (arith, sized, table) in rw e all
    ]
  ]

  candidates-All : (cidrs : List Cidr) (w : World) → All (Concerned cidrs w) (candidates os cidrs w)
  unfolding candidates
  candidates-All cidrs w =
      insert_all-All (Concerned cidrs w) (udp_owners os w) (tcp_owners os cidrs w)
        (udp_owners-All cidrs w) (tcp_owners-All cidrs w)

  -- The process ran the network service of a known browser in this session, and was ended.
  pub record Ended (session pid : ℕ) : Type 0 where
    pub before : World
    pub in_session : os.session_of pid before ≡ some session
    pub path : Bytes
    pub image : os.image_name pid before ≡ some path
    pub known : is_known_chromium os path ≡ true
    pub service : has_part network_service (os.command_line pid before) ≡ true
    pub ended : (os.terminate pid before).0 ≡ true

  try_process-Ended :
      (session pid : ℕ) (w : World) → (try_process os session pid w).0 ≡ true → Ended session pid
  unfolding try_process end_process
  try_process-Ended session pid w h = elim (Option-cases (os.session_of pid w)) [
    | inl gone ↦ absurd (ground (arith, gone))
    | inr (its_session, belongs) ↦ elim (Option-cases (os.image_name pid w)) [
      | inl unnamed ↦ absurd (ground (arith, belongs, unnamed))
      | inr (path, image) ↦ record {
        before = w;
        in_session = ground (arith, belongs, image);
        path = path;
        image = image;
        known = ground (arith, belongs, image);
        service = ground (arith, belongs, image);
        ended = ground (arith, belongs, image);
      }
    ]
  ]

  restart_all-All :
      (P : ℕ → Type 0) (session : ℕ) (pids : List ℕ) (w : World)
      → All P pids
      → All
          (λ (r : RestartedProcess). P r.pid × Ended session r.pid)
          (restart_all os session pids w).0
  unfolding restart_all
  restart_all-All P session [] w hs = tt
  restart_all-All P session (pid ∷ rest) w hs =
      let w' = (try_process os session pid w).1 in
      let more = restart_all-All P session rest w' hs.1 in
      elim (Bool-cases (try_process os session pid w).0) [
        | inr b ↦ rw b more
        | inl b ↦ rw b ((hs.0, try_process-Ended session pid w b), more)
      ]

  reconnect_cases :
      (destinations : List Bytes) (session : ℕ) (w : World)
      → (((reconnect os destinations session w).0 ≡ [])
          × ((reconnect os destinations session w).2 ≡ w))
        ⊎ (((reconnect os destinations session w).0
              ≡ (restart_all os session (candidates os (parse_cidrs os destinations) w) w).0)
            × ((reconnect os destinations session w).2
                ≡ (restart_all os session (candidates os (parse_cidrs os destinations) w) w).1))
  unfolding reconnect
  reconnect_cases destinations session w = ground arith

  abbrev pub pids_of : List RestartedProcess → List ℕ
  pids_of [] = []
  pids_of (r ∷ rest) = r.pid ∷ pids_of rest

  module _ (t : Processes os) where
    try_process_ends :
        (session pid : ℕ) (w : World)
        → t.ended (try_process os session pid w).1
          ≡ t.ended w ++ (if (try_process os session pid w).0 then pid ∷ [] else [])
    unfolding try_process end_process
    try_process_ends session pid w =
        let none_more = append-nil (t.ended w) in
        elim (Option-cases (os.session_of pid w)) [
          | inl gone ↦ ground (arith, gone, none_more)
          | inr (its_session, belongs) ↦ elim (Option-cases (os.image_name pid w)) [
            | inl unnamed ↦ ground (arith, belongs, unnamed, none_more)
            | inr (path, image) ↦ ground (arith, belongs, image, none_more, t.terminates pid w)
          ]
        ]

    restart_all_ends :
        (session : ℕ) (pids : List ℕ) (w : World)
        → t.ended (restart_all os session pids w).1
          ≡ t.ended w ++ pids_of (restart_all os session pids w).0
    unfolding restart_all
    restart_all_ends session [] w = sym (append-nil (t.ended w))
    restart_all_ends session (pid ∷ rest) w =
        let w' = (try_process os session pid w).1 in
        let first = try_process_ends session pid w in
        let more = restart_all_ends session rest w' in
        let others = pids_of (restart_all os session rest w').0 in
        elim (Bool-cases (try_process os session pid w).0) [
          | inr b ↦ ground (arith, b, first, more, append-nil (t.ended w))
          | inl b ↦ ground (arith, b, first, more, append_assoc (t.ended w) (pid ∷ []) others)
        ]

    -- Reconnect ends only what it means to: the processes that it ends are exactly those that it
    -- reports, and each of them ran the network service of a known browser in the client's session,
    -- and the tables showed a connection of it to one of the changed destinations, or a UDP endpoint
    -- of it. (A call of TerminateProcess that succeeds is taken to end its process, and nothing else
    -- to end one.)
    pub reconnect_chosen :
        (destinations : List Bytes) (session : ℕ) (w : World)
        → (t.ended (reconnect os destinations session w).2
            ≡ t.ended w ++ pids_of (reconnect os destinations session w).0)
          × All
              (λ (r : RestartedProcess).
                Concerned (parse_cidrs os destinations) w r.pid × Ended session r.pid)
              (reconnect os destinations session w).0
    reconnect_chosen destinations session w =
        let cidrs = parse_cidrs os destinations in
        let pids = candidates os cidrs w in
        elim (reconnect_cases destinations session w) [
          | inl (none_ended, same) ↦ rw (none_ended, same) (sym (append-nil (t.ended w)), tt)
          | inr (ran, left) ↦
              rw (ran, left)
                (
                  restart_all_ends session pids w,
                  restart_all-All (Concerned cidrs w) session pids w (candidates-All cidrs w),
                )
        ]
