-- ===== src/Relay/PumpTests.antt =====
-- A pump that receives two bytes at a time and sends two bytes at a time.
use netpilot.Base.{
  take-length-take, length-take_le_length, ◌≡◌, refl, false, none, some, [], ◌∷◌, ◌++◌, arith,
  length, take, drop,
}
use netpilot.Base.Text.{Bytes}
use netpilot.Client.Pipe.{Pipe, write_all, transmit}
use netpilot.Relay.Pump.{is_cut, pump, Streams, Relayed, pump-Relayed}

-- What was received, what was sent, and what is there to be received.
abbrev sockets : Pipe
sockets = record {
  World = Bytes × Bytes × Bytes;
  write_file = λ bytes w. (some (length (take 2 bytes)), (w.0, w.1 ++ take 2 bytes, w.2));
  read_file = λ size w. (some (take 2 w.2), (w.0 ++ take 2 w.2, w.1, drop 2 w.2));
}

abbrev left_alone : Bytes × Bytes × Bytes → Bytes × Bytes × Bytes
left_alone w = w

received_front : (a chunk bytes : Bytes) → some chunk ≡ some bytes → a ++ chunk ≡ a ++ bytes
received_front a chunk bytes h = cc h

never_fails : (a b : Bytes) → some a ≡ none → b ++ a ≡ b
never_fails a b h = absurd (cc h)

abbrev streams : Streams sockets left_alone
streams = record {
  writes = record {
    sent = λ w. w.1;
    within = λ bytes w k h. ground (arith, length-take_le_length 2 bytes);
    front = λ bytes w k h. ground (arith, take-length-take 2 bytes);
  };
  received = λ w. w.0;
  receives = λ size w bytes h. received_front w.0 (take 2 w.2) bytes h;
  fails = λ size w h. never_fails (take 2 w.2) w.0 h;
  read_keeps = λ size w. refl;
  write_keeps = λ bytes w. refl;
  shut_received = λ w. refl;
  shut_sent = λ w. refl;
}

abbrev five_bytes : Bytes × Bytes × Bytes
five_bytes = ([], [], 1 ∷ 2 ∷ 3 ∷ 4 ∷ 5 ∷ [])

not_cut : is_cut (pump sockets left_alone 4 five_bytes).ending ≡ false
unfolding pump transmit write_all
not_cut = refl

pump-Relayed_example :
    Relayed sockets left_alone streams five_bytes (pump sockets left_alone 4 five_bytes)
pump-Relayed_example = pump-Relayed sockets left_alone streams 4 five_bytes not_cut
