-- ===== src/Driver/Classify.antt =====
-- ClassifyConnectRedirectV4. Addresses and ports are numbers in network byte order.
use netpilot.Base.{
  ℕ, ◌+◌, ◌*◌, ◌/◌, ◌%◌, ◌^◌, ◌≤◌, ◌<◌, ◌≡◌, refl, ◌⊎◌, Bool, true, false, not, ◌&&◌, ◌||◌, Option,
  none, some, List, [], ◌∷◌, arith, ltb, ◌==◌, if◌then◌else◌,
}

abbrev pub ipproto_tcp : ℕ
ipproto_tcp = 6

abbrev pub ipproto_udp : ℕ
ipproto_udp = 17

abbrev pub tcp_proxy_port : ℕ
tcp_proxy_port = 49171

abbrev pub udp_proxy_port : ℕ
udp_proxy_port = 49172

abbrev pub redirect_context_version : ℕ
redirect_context_version = 1

-- RtlUlongByteSwap(INADDR_LOOPBACK), and RtlUshortByteSwap.
abbrev pub loopback : ℕ
loopback = 0x0100_007f

abbrev pub swap_u16 : ℕ → ℕ
swap_u16 x = x % 256 * 256 + x / 256 % 256

pub record RedirectContext : Type 0 where
  pub version : ℕ
  pub protocol : ℕ
  pub rule_context : ℕ
  pub remote_ipv4 : ℕ
  pub remote_port : ℕ

pub data RedirectState : Type 0 where
  not_redirected redirected_by_self previously_redirected_by_self redirected_by_other :
      RedirectState

pub data Action : Type 0 where
  permit block : Action

-- What the function is given: whether the action may be written, the state of the redirect record
-- if there is one, the protocol, the filter's context, the remote endpoint, and what the kernel
-- answers: the two acquisitions and the allocation.
pub record Connection : Type 0 where
  pub can_write : Bool
  pub redirect_state : Option RedirectState
  pub protocol : ℕ
  pub filter_context : ℕ
  pub remote_ipv4 : ℕ
  pub remote_port : ℕ
  pub handle_acquired : Bool
  pub request_acquired : Bool
  pub context_allocated : Bool

pub record Redirect : Type 0 where
  pub address : ℕ
  pub port : ℕ
  pub target_pid : ℕ
  pub context : RedirectContext

-- The calls that take and give back kernel resources, in order.
pub data Call : Type 0 where
  acquire_handle acquire_request apply_request release_handle : Call

-- `action` is `none` where `classify_out` is left alone, and `write_cleared` says that the right
-- to write was taken away.
pub record Verdict : Type 0 where
  pub action : Option Action
  pub write_cleared : Bool
  pub redirect : Option Redirect
  pub calls : List Call

abbrev quiet : Option Action → Bool → Verdict
quiet action write_cleared = record {
  action = action;
  write_cleared = write_cleared;
  redirect = none;
  calls = [];
}

unfoldable pub is_self_redirected : Option RedirectState → Bool
is_self_redirected (some RedirectState.redirected_by_self) = true
is_self_redirected (some RedirectState.previously_redirected_by_self) = true
is_self_redirected _ = false

abbrev pub is_redirectable : ℕ → Bool
is_redirectable protocol = protocol == ipproto_tcp || protocol == ipproto_udp

-- `proxy_process_id <= 0` of a LONG, given as its 32-bit pattern.
abbrev pub is_registered : ℕ → Bool
is_registered pid = not (pid == 0) && ltb pid (2 ^ 31)

context_of : Connection → RedirectContext
context_of c = record {
  version = redirect_context_version;
  protocol = c.protocol;
  rule_context = c.filter_context;
  remote_ipv4 = c.remote_ipv4;
  remote_port = c.remote_port;
}

redirect_of : Connection → ℕ → Redirect
unfolding context_of
redirect_of c pid = record {
  address = loopback;
  port = swap_u16 (if c.protocol == ipproto_tcp then tcp_proxy_port else udp_proxy_port);
  target_pid = pid;
  context = context_of c;
}

-- From the acquisition of the handle on.
redirect_request : Connection → ℕ → Verdict
unfolding redirect_of
redirect_request c pid =
    if not c.handle_acquired
    then quiet (some block) false
    else if not c.request_acquired
    then record {
      action = some block;
      write_cleared = false;
      redirect = none;
      calls = acquire_handle ∷ release_handle ∷ [];
    }
    else if not c.context_allocated
    then record {
      action = some block;
      write_cleared = true;
      redirect = none;
      calls = acquire_handle ∷ acquire_request ∷ apply_request ∷ release_handle ∷ [];
    }
    else record {
      action = some permit;
      write_cleared = false;
      redirect = some (redirect_of c pid);
      calls = acquire_handle ∷ acquire_request ∷ apply_request ∷ release_handle ∷ [];
    }

unfoldable pub classify : Connection → ℕ → Verdict
unfolding is_self_redirected redirect_request
classify c pid =
    if not c.can_write
    then quiet none false
    else if is_self_redirected c.redirect_state
    then quiet (some permit) false
    else if not (is_redirectable c.protocol)
    then quiet (some permit) false
    else if not (is_registered pid)
    then quiet (some block) true
    else redirect_request c pid

-- The proxy endpoint of the connection's protocol, with the original endpoint in the context.
pub record GoesToProxy (c : Connection) (pid : ℕ) (r : Redirect) : Type 0 where
  pub address : r.address ≡ loopback
  pub port :
      ((c.protocol ≡ ipproto_tcp) × (r.port ≡ swap_u16 tcp_proxy_port))
      ⊎ ((c.protocol ≡ ipproto_udp) × (r.port ≡ swap_u16 udp_proxy_port))
  pub target_pid : r.target_pid ≡ pid
  pub registered : (0 < pid) × (pid < 2 ^ 31)
  pub version : r.context.version ≡ redirect_context_version
  pub protocol : r.context.protocol ≡ c.protocol
  pub rule : r.context.rule_context ≡ c.filter_context
  pub remote_ipv4 : r.context.remote_ipv4 ≡ c.remote_ipv4
  pub remote_port : r.context.remote_port ≡ c.remote_port

proxy-GoesToProxy :
    (c : Connection) (pid : ℕ)
    → is_redirectable c.protocol ≡ true
    → is_registered pid ≡ true
    → GoesToProxy c pid (redirect_of c pid)
unfolding redirect_of
proxy-GoesToProxy c pid h k = record {
  address = refl;
  port = ground arith;
  target_pid = refl;
  registered = (ground arith, ground arith);
  version = refl;
  protocol = refl;
  rule = refl;
  remote_ipv4 = refl;
  remote_port = refl;
}

-- A TCP or UDP connection that the driver has not redirected before is permitted only on its way
-- to the registered proxy process: to the loopback address and the port of its protocol, with the
-- original endpoint and the rule in the context.
pub classify_permits_proxied :
    (c : Connection) (pid : ℕ)
    → is_self_redirected c.redirect_state ≡ false
    → is_redirectable c.protocol ≡ true
    → (classify c pid).action ≡ some permit
    → (r : Redirect) × ((classify c pid).redirect ≡ some r) × GoesToProxy c pid r
unfolding classify
classify_permits_proxied c pid h k p =
    (redirect_of c pid, ground arith, proxy-GoesToProxy c pid k (ground arith))

abbrev pub count_acquired : List Call → ℕ
count_acquired [] = 0
count_acquired (acquire_handle ∷ rest) = 1 + count_acquired rest
count_acquired (_ ∷ rest) = count_acquired rest

abbrev pub count_released : List Call → ℕ
count_released [] = 0
count_released (release_handle ∷ rest) = 1 + count_released rest
count_released (_ ∷ rest) = count_released rest

abbrev pub count_requests : List Call → ℕ
count_requests [] = 0
count_requests (acquire_request ∷ rest) = 1 + count_requests rest
count_requests (_ ∷ rest) = count_requests rest

abbrev pub count_applied : List Call → ℕ
count_applied [] = 0
count_applied (apply_request ∷ rest) = 1 + count_applied rest
count_applied (_ ∷ rest) = count_applied rest

-- On every path each classify handle that was acquired is released, and each writable request that
-- was acquired is applied.
pub classify_balanced :
    (c : Connection) (pid : ℕ)
    → (count_acquired (classify c pid).calls ≡ count_released (classify c pid).calls)
      × (count_requests (classify c pid).calls ≡ count_applied (classify c pid).calls)
unfolding classify
classify_balanced c pid = (ground arith, ground arith)

-- Whatever the kernel answers, a redirectable connection that the driver may decide on and has not
-- redirected before is blocked while no proxy process is registered.
classify_blocks_unregistered :
    (c : Connection) (pid : ℕ)
    → c.can_write ≡ true
    → is_self_redirected c.redirect_state ≡ false
    → is_redirectable c.protocol ≡ true
    → (pid ≡ 0) ⊎ (2 ^ 31 ≤ pid)
    → ((classify c pid).action ≡ some block) × ((classify c pid).redirect ≡ none)
unfolding classify
classify_blocks_unregistered c pid w h k p = (ground arith, ground arith)
