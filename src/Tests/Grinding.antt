-- ===== src/Tests/Grinding.antt =====
-- One thread of the grinder that finds a key pair in its first round.
use kolz_protocol.Base.{zero, suc, ◌≡◌, ◌≢◌, refl, true, some, [], arith}
use kolz_protocol.Bytes.{bytes_eq}
use kolz_protocol.Constants.{ascii}
use kolz_protocol.Cli.Text
use kolz_protocol.Cli.Error.{fail, internal}
use kolz_protocol.Cli.Host.{Keypair}
use kolz_protocol.Cli.Cmd.Grind
use kolz_protocol.Cli.Cmd.Grind.{
  Args, System, start, Step, pick, Reach, begin, then_, AllStopped, matches, finish, goes_on, hits,
  takes_slot, stores_found, locking, storing, drawing, stopped,
}
use kolz_protocol.Cli.Cmd.Grind.Safety.{
  IsValid, none_, more, Reach-IsValid, winner_stays, finish-AllStopped, progress,
}
use kolz_protocol.Tests.Client.{host}

-- A key that shows as its own bytes.
abbrev pair : Keypair
pair = record { pubkey = ascii "xyzPump"; bytes = [] }

abbrev args : Args
args = record { output = ascii "key.json"; threads = 1; suffix = ascii "pump" }

pair-matches : matches host (ascii "pump") pair ≡ true
unfolding matches bytes_eq Text.lower
pair-matches = refl

abbrev drawing_ : System
drawing_ = record start { pc = Grind.update start.pc 0 drawing }

abbrev at_lock : System
at_lock = record {
  shared = record start.shared { counter = 1 };
  pc = Grind.update drawing_.pc 0 (locking pair);
}

abbrev inside : System
inside = record {
  shared = record start.shared { counter = 1; winner = some pair; locked = true };
  pc = Grind.update at_lock.pc 0 storing;
}

abbrev over : System
over = record {
  shared = record start.shared { counter = 1; winner = some pair; found = true };
  pc = Grind.update inside.pc 0 stopped;
}

last : Step (matches host (ascii "pump")) 1 inside over
last = pick 0 (omega arith) stores_found

Reach-inside : Reach (matches host (ascii "pump")) 1 inside
Reach-inside =
    then_
      (then_ (then_ begin (pick 0 (omega arith) goes_on))
        (pick 0 (omega arith) (hits pair pair-matches)))
      (pick 0 (omega arith) (takes_slot pair refl refl))

Reach-over : Reach (matches host (ascii "pump")) 1 over
Reach-over = then_ Reach-inside last

all_stopped : AllStopped 1 over
all_stopped zero h = refl
all_stopped (suc i) h = absurd (omega arith)

Reach-IsValid_example : IsValid (matches host (ascii "pump")) 1 over
Reach-IsValid_example = Reach-IsValid Reach-over

winner_stays_example : over.shared.winner ≡ some pair
winner_stays_example = winner_stays pair (more none_ last) refl

finish-AllStopped_example :
    (kp : Keypair) × (over.shared.winner ≡ some kp)
    × (matches host args.suffix kp ≡ true)
    × (finish host args (ascii "0.1") over.shared
        ≢ fail (internal (ascii "grinder exited without a result")))
finish-AllStopped_example =
    finish-AllStopped host args (ascii "0.1") over (omega arith) Reach-over all_stopped

progress_example : (t : System) × Step (matches host (ascii "pump")) 1 inside t
progress_example = progress 0 pair Reach-inside (omega arith) (λ e. cc)
