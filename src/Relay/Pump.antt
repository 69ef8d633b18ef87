-- ===== src/Relay/Pump.antt =====
-- The pump of RelayTcp from one socket to another: recv is the reading of the pipe, and send its
-- writing; a result that is not positive is `none` or no byte.
use netpilot.Base.{
  ℕ, zero, suc, ◌+◌, ◌*◌, ◌≡◌, refl, ap, sym, ◌∙◌, inl, inr, Bool, true, false, none, some, List,
  [], ◌∷◌, ◌++◌, append_assoc, append-nil, arith, length, drop, length-append, if◌then◌else◌,
  Bool-cases, Option-cases,
}
use netpilot.Base.Text.{Bytes, is_empty}
use netpilot.Client.Pipe.{Pipe, Writes, write_all, write_all_sent, transmit}

-- `cut` is the return after a failed send; `going` a pump that has not come to its end.
pub data PumpEnd : Type 0 where
  closed cut going : PumpEnd

abbrev pub is_cut : PumpEnd → Bool
is_cut closed = false
is_cut cut = true
is_cut going = false

pub record Pumped (p : Pipe) : Type 0 where
  -- What was added to the metric, in order.
  pub counts : List ℕ
  pub ending : PumpEnd
  pub world : p.World

unfoldable pub sum : List ℕ → ℕ
sum [] = 0
sum (k ∷ rest) = k + sum rest

module _ (p : Pipe) (shut_down : p.World → p.World) where
  abbrev pub stop_pump : p.World → Pumped p
  stop_pump w = record { counts = []; ending = closed; world = shut_down w }

  -- So many turns of the loop. A chunk is counted before it is sent.
  unfoldable pub pump : ℕ → p.World → Pumped p
  pump zero w = record { counts = []; ending = going; world = w }
  pump (suc turns) w =
      let (got, w') = p.read_file (32 * 1024) w in
      elim got [
        | none ↦ stop_pump w'
        | some bytes ↦
            let (ok, w'') = transmit p bytes w' in
            let rest = pump turns w'' in
            if is_empty bytes
            then stop_pump w'
            else if ok
            then record rest { counts = length bytes ∷ rest.counts }
            else record { counts = length bytes ∷ []; ending = cut; world = w'' }
      ]

-- What was received from the one socket and sent to the other.
pub record Streams (p : Pipe) (shut_down : p.World → p.World) : Type 0 where
  pub writes : Writes p
  pub received : p.World → Bytes
  pub receives :
      (size : ℕ) (w : p.World) (bytes : Bytes)
      → (p.read_file size w).0 ≡ some bytes
      → received (p.read_file size w).1 ≡ received w ++ bytes
  pub fails :
      (size : ℕ) (w : p.World)
      → (p.read_file size w).0 ≡ none
      → received (p.read_file size w).1 ≡ received w
  pub read_keeps : (size : ℕ) (w : p.World) → writes.sent (p.read_file size w).1 ≡ writes.sent w
  pub write_keeps : (bytes : Bytes) (w : p.World) → received (p.write_file bytes w).1 ≡ received w
  pub shut_received : (w : p.World) → received (shut_down w) ≡ received w
  pub shut_sent : (w : p.World) → writes.sent (shut_down w) ≡ writes.sent w

module _ (p : Pipe) (shut_down : p.World → p.World) (t : Streams p shut_down) where
  open t use {writes, received}

  write_all-received :
      (fuel : ℕ) (bytes : Bytes) (w : p.World) → received (write_all p fuel bytes w).1 ≡ received w
  unfolding write_all
  write_all-received fuel [] w = refl
  write_all-received zero (b ∷ bytes) w = refl
  write_all-received (suc fuel) (b ∷ bytes) w =
      let w' = (p.write_file (b ∷ bytes) w).1 in
      elim (Option-cases (p.write_file (b ∷ bytes) w).0) [
        | inl broken ↦ ground (arith, broken, t.write_keeps (b ∷ bytes) w)
        | inr (k, wrote) ↦ ground (
          arith,
          wrote,
          t.write_keeps (b ∷ bytes) w,
          write_all-received fuel (drop k (b ∷ bytes)) w',
        )
      ]

  transmit-received : (bytes : Bytes) (w : p.World) → received (transmit p bytes w).1 ≡ received w
  unfolding transmit
  transmit-received bytes w =
      let kept = write_all-received (length bytes) bytes w in ground (arith, kept)

  transmit_sent :
      (bytes : Bytes) (w : p.World)
      → (transmit p bytes w).0 ≡ true
      → writes.sent (transmit p bytes w).1 ≡ writes.sent w ++ bytes
  unfolding transmit
  transmit_sent bytes w h = elim (Option-cases (write_all p (length bytes) bytes w).0) [
    | inl starved ↦ absurd (ground (arith, starved))
    | inr (ok, ran) ↦
        let all : (write_all p (length bytes) bytes w).0 ≡ some true = ground (arith, ran) in
        ground (arith, ran, write_all_sent p writes (length bytes) bytes w all)
  ]

  -- The bytes that came in went out, and were counted.
  pub record Relayed (w : p.World) (out : Pumped p) : Type 0 where
    pub chunk : Bytes
    pub came : received out.world ≡ received w ++ chunk
    pub went : writes.sent out.world ≡ writes.sent w ++ chunk
    pub counted : sum out.counts ≡ length chunk

  stopped-Relayed :
      (w v : p.World)
      → received v ≡ received w
      → writes.sent v ≡ writes.sent w
      → Relayed w (stop_pump p shut_down v)
  unfolding sum
  stopped-Relayed w v came went = record {
    chunk = [];
    came = t.shut_received v ∙ came ∙ sym (append-nil (received w));
    went = t.shut_sent v ∙ went ∙ sym (append-nil (writes.sent w));
    counted = refl;
  }

  is_empty_nil : (bytes : Bytes) → is_empty bytes ≡ true → bytes ≡ []
  is_empty_nil [] h = refl
  is_empty_nil (b ∷ bytes) h = absurd (cc h)

  -- The chunk goes out before those of the turns that follow.
  before-Relayed :
      (w w'' : p.World) (bytes : Bytes) (rest : Pumped p)
      → received w'' ≡ received w ++ bytes
      → writes.sent w'' ≡ writes.sent w ++ bytes
      → Relayed w'' rest
      → Relayed w (record rest { counts = length bytes ∷ rest.counts })
  unfolding sum
  before-Relayed w w'' bytes rest came went r = record {
    chunk = bytes ++ r.chunk;
    came = r.came ∙ ap (λ (l : Bytes). l ++ r.chunk) came ∙ append_assoc (received w) bytes r.chunk;
    went =
        r.went ∙ ap (λ (l : Bytes). l ++ r.chunk) went ∙ append_assoc (writes.sent w) bytes r.chunk;
    counted = omega (arith, r.counted, length-append bytes r.chunk);
  }

  -- A turn that receives bytes, with what is known of the turns that follow.
  chunk-Relayed :
      (turns : ℕ) (w : p.World) (bytes : Bytes)
      → (p.read_file (32 * 1024) w).0 ≡ some bytes
      → writes.sent (p.read_file (32 * 1024) w).1 ≡ writes.sent w
      → received (p.read_file (32 * 1024) w).1 ≡ received w ++ bytes
      → is_cut (pump p shut_down (suc turns) w).ending ≡ false
      → ((v : p.World)
          → is_cut (pump p shut_down turns v).ending ≡ false
          → Relayed v (pump p shut_down turns v))
      → Relayed w (pump p shut_down (suc turns) w)
  unfolding pump
  chunk-Relayed turns w bytes got kept came h follow =
      let w' = (p.read_file (32 * 1024) w).1 in
      let w'' = (transmit p bytes w').1 in
      let rest = pump p shut_down turns w'' in
      elim (Bool-cases (is_empty bytes)) [
        | inl empty ↦
            let e : pump p shut_down (suc turns) w ≡ stop_pump p shut_down w' =
              ground (arith, got, empty) in
            let same : received w' ≡ received w =
              came
              ∙ ap (λ (l : Bytes). received w ++ l) (is_empty_nil bytes empty)
              ∙ append-nil (received w) in
            rw e (stopped-Relayed w w' same kept)
        | inr full ↦ elim (Bool-cases (transmit p bytes w').0) [
          | inr bad ↦ absurd (ground (arith, got, full, bad, h))
          | inl ok ↦
              let e : pump p shut_down (suc turns) w
                  ≡ record rest { counts = length bytes ∷ rest.counts } =
                ground (arith, got, full, ok) in
              let sent : writes.sent w'' ≡ writes.sent w ++ bytes =
                transmit_sent bytes w' ok ∙ ap (λ (l : Bytes). l ++ bytes) kept in
              rw e (
                before-Relayed w w'' bytes rest (transmit-received bytes w' ∙ came) sent
                  (follow w'' (ground (arith, got, full, ok, h))))
        ]
      ]

  -- After any number of turns in which no send failed, the bytes sent to the destination are
  -- exactly those received from the source, in order, and the counts add up to them, however
  -- recv and send cut them.
  pub pump-Relayed :
      (turns : ℕ) (w : p.World)
      → is_cut (pump p shut_down turns w).ending ≡ false
      → Relayed w (pump p shut_down turns w)
  unfolding pump sum
  pump-Relayed zero w h = record {
    chunk = [];
    came = sym (append-nil (received w));
    went = sym (append-nil (writes.sent w));
    counted = refl;
  }
  pump-Relayed (suc turns) w h =
      let w' = (p.read_file (32 * 1024) w).1 in
      let kept = t.read_keeps (32 * 1024) w in
      elim (Option-cases (p.read_file (32 * 1024) w).0) [
        | inl broken ↦
            let e : pump p shut_down (suc turns) w ≡ stop_pump p shut_down w' =
              ground (arith, broken) in
            rw e (stopped-Relayed w w' (t.fails (32 * 1024) w broken) kept)
        | inr (bytes, got) ↦
            chunk-Relayed turns w bytes got kept (t.receives (32 * 1024) w bytes got) h
              (λ v. pump-Relayed turns v)
      ]
