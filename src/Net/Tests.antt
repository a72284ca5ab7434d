-- ===== src/Net/Tests.antt =====
-- The theorems on the socket loops at scripts with signals and pieces.
use mini_dropbox.Prelude.{◌≡◌, ◌⊎◌, refl, List, [], ◌∷◌, ◌++◌, ℤ, pos, negsuc, arith}
use mini_dropbox.Net.{
  sent, send_interrupted, send_failed, RecvEvent, arrived, recv_interrupted, recv_failed, Socket,
  ok, send_all, recv_all,
}
use mini_dropbox.Net.Loops.{stream}
use mini_dropbox.Net.Receive.{came, recv_all-short}

abbrev line : Socket
line = record {
  outcomes = sent 2 ∷ send_interrupted ∷ sent 9 ∷ send_failed 32 ∷ [];
  wire = [];
  incoming = arrived (1 ∷ 2 ∷ []) ∷ recv_interrupted ∷ arrived (3 ∷ 4 ∷ []) ∷ recv_failed 11 ∷ [];
  errno = 0;
}

abbrev after_send : Socket
after_send = record line { outcomes = send_failed 32 ∷ []; wire = 5 ∷ 6 ∷ 7 ∷ []; errno = 4 }

program : Unit {0}
unfolding send_all recv_all stream
program = tt

sends : send_all (5 ∷ 6 ∷ 7 ∷ []) line ≡ ok (pos 0, after_send)
unfolding program
sends = refl

abbrev drained : Socket
drained = record line { incoming = []; errno = 11 }

runs_short : recv_all 9 line ≡ ok ((negsuc 0, 1 ∷ 2 ∷ 3 ∷ 4 ∷ []), drained)
unfolding program
runs_short = refl

recv_all-short_example :
    (◌≡◌ {A = ℤ} (negsuc 0) (negsuc 0) ⊎ ◌≡◌ {A = ℤ} (negsuc 0) (negsuc 1))
    × (1 ∷ 2 ∷ 3 ∷ 4 ∷ [] ≡ stream line.incoming)
    × (read : List RecvEvent) × (line.incoming ≡ read ++ drained.incoming)
    × (came read ≡ 1 ∷ 2 ∷ 3 ∷ 4 ∷ [])
recv_all-short_example =
    recv_all-short 9 line drained (negsuc 0) (1 ∷ 2 ∷ 3 ∷ 4 ∷ []) (unfold program in omega arith)
      runs_short
