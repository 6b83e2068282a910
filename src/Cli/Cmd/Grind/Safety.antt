-- ===== src/Cli/Cmd/Grind/Safety.antt =====
-- The threads of cli/src/cmd/grind.rs under every interleaving.
use kolz_protocol.Base.{
  ℕ, ◌<◌, ◌≡◌, ◌≢◌, refl, inl, inr, Bool, true, false, Option, none, some, ◌==◌, arith, Bool-cases,
  Option-cases, sym, subst,
}
use kolz_protocol.Cli.Text.{Text}
use kolz_protocol.Cli.Error.{fail, internal}
use kolz_protocol.Constants.{ascii}
use kolz_protocol.Cli.Host.{Host, Keypair}
use kolz_protocol.Cli.Cmd.Grind.{
  Args, Shared, Pc, testing, drawing, storing, stopped, locking, System, update, start, Move,
  goes_on, leaves, misses, hits, takes_slot, too_late, stores_found, Step, pick, Reach, begin,
  then_, AllStopped, finish, matches,
}

-- What a thread's place says of what is shared.
abbrev pub Knows : (Keypair → Bool) → Shared → Pc → Type 0
Knows fits s testing = Unit {0}
Knows fits s drawing = Unit {0}
Knows fits s (locking kp) = fits kp ≡ true
Knows fits s storing = (s.winner ≢ none) × (s.locked ≡ true)
Knows fits s stopped = s.winner ≢ none

abbrev Fitting : (Keypair → Bool) → Option Keypair → Type 0
Fitting fits none = Unit {0}
Fitting fits (some kp) = fits kp ≡ true

pub record IsValid (fits : Keypair → Bool) (n : ℕ) (s : System) : Type 0 where
  pub fitting : Fitting fits s.shared.winner
  pub announced : s.shared.found ≡ true → s.shared.winner ≢ none
  pub places : (i : ℕ) → Knows fits s.shared (s.pc i)
  pub one_inside : (i j : ℕ) → s.pc i ≡ storing → s.pc j ≡ storing → i ≡ j
  pub held : s.shared.locked ≡ true → (i : ℕ) × (i < n) × (s.pc i ≡ storing)

Knows-same :
    (fits : Keypair → Bool) (s m : Shared) (p : Pc)
    → m.winner ≡ s.winner
    → m.locked ≡ s.locked
    → Knows fits s p
    → Knows fits m p
Knows-same fits s m testing w l k = tt
Knows-same fits s m drawing w l k = tt
Knows-same fits s m (locking kp) w l k = k
Knows-same fits s m storing w l k = rw (w, l) k
Knows-same fits s m stopped w l k = rw w k

-- A thread that neither enters nor leaves the lock.
quiet-IsValid :
    (fits : Keypair → Bool) (n : ℕ) (s : System) (m : Shared) (i : ℕ) (p q : Pc)
    → m.winner ≡ s.shared.winner
    → m.locked ≡ s.shared.locked
    → m.found ≡ s.shared.found
    → s.pc i ≡ p
    → p ≢ storing
    → q ≢ storing
    → Knows fits m q
    → IsValid fits n s
    → IsValid fits n (record { shared = m; pc = update s.pc i q })
quiet-IsValid fits n s m i p q w l f at np nq k v = record {
  fitting = rw w v.fitting;
  announced = rw (w, f) v.announced;
  places = λ j. elim (Bool-cases (i == j)) [
    | inl same ↦ rw same k
    | inr other ↦ rw other (Knows-same fits s.shared m (s.pc j) w l (v.places j))
  ];
  one_inside = λ j k' hj hk. ground (arith, v.one_inside j k');
  held = λ h. let (j, lt, inside) = v.held (ground arith) in (j, lt, ground arith);
}

-- What the other threads know when one takes the free lock and fills the slot.
Knows-taken :
    (fits : Keypair → Bool) (s : Shared) (kp : Keypair) (p : Pc)
    → s.locked ≡ false
    → Knows fits s p
    → Knows fits (record s { winner = some kp; locked = true }) p
Knows-taken fits s kp testing free k = tt
Knows-taken fits s kp drawing free k = tt
Knows-taken fits s kp (locking kp') free k = k
Knows-taken fits s kp storing free k = ground arith
Knows-taken fits s kp stopped free k = λ e. cc

-- What they know when it gives the lock back; none of them is inside.
Knows-released :
    (fits : Keypair → Bool) (s : Shared) (p : Pc)
    → p ≢ storing
    → Knows fits s p
    → Knows fits (record s { found = true; locked = false }) p
Knows-released fits s testing ne k = tt
Knows-released fits s drawing ne k = tt
Knows-released fits s (locking kp) ne k = k
Knows-released fits s storing ne k = absurd (ne refl)
Knows-released fits s stopped ne k = k

move-IsValid :
    (fits : Keypair → Bool) (n : ℕ) (s : System) (i : ℕ) (p : Pc) {m : Shared} {q : Pc}
    → i < n
    → s.pc i ≡ p
    → Move fits s.shared p m q
    → IsValid fits n s
    → IsValid fits n (record { shared = m; pc = update s.pc i q })
move-IsValid fits n s i testing lt at goes_on v =
    quiet-IsValid fits n s s.shared i testing drawing refl refl refl at (λ e. cc) (λ e. cc) tt v
move-IsValid fits n s i testing lt at (leaves h) v =
    quiet-IsValid fits n s s.shared i testing stopped refl refl refl at (λ e. cc) (λ e. cc)
      (v.announced h) v
move-IsValid fits n s i drawing lt at (misses kp h) v =
    quiet-IsValid fits n s _ i drawing testing refl refl refl at (λ e. cc) (λ e. cc) tt v
move-IsValid fits n s i drawing lt at (hits kp h) v =
    quiet-IsValid fits n s _ i drawing (locking kp) refl refl refl at (λ e. cc) (λ e. cc) h v
move-IsValid fits n s i (locking kp) lt at (too_late kp' old h w) v =
    quiet-IsValid fits n s s.shared i (locking kp) stopped refl refl refl at (λ e. cc) (λ e. cc)
      (λ e. cc) v
move-IsValid fits n s i (locking kp) {m = m} lt at (takes_slot kp' free empty) v = record {
  fitting = rw at at (v.places i);
  announced = λ _ e. cc;
  places = λ j. elim (Bool-cases (i == j)) [
    | inl same ↦ rw same (λ e. cc, refl)
    | inr other ↦ rw other (Knows-taken fits s.shared kp (s.pc j) free (v.places j))
  ];
  one_inside = λ j k hj hk. ground (arith, not_inside j, not_inside k);
  held = λ _. (i, lt, ground arith);
}
  where
    not_inside : (j : ℕ) → s.pc j ≢ storing
    not_inside j h = let k : Knows fits s.shared storing = rw h at (v.places j) in ground arith
move-IsValid fits n s i storing lt at stores_found v = record {
  fitting = v.fitting;
  announced = λ _. inside.0;
  places = λ j. elim (Bool-cases (i == j)) [
    | inl same ↦ rw same (inside.0)
    | inr other ↦ rw other (
        Knows-released fits s.shared (s.pc j) (λ h. ground (arith, v.one_inside i j at h))
          (v.places j))
  ];
  one_inside = λ j k hj hk. ground (arith, v.one_inside j k);
  held = λ h. cc;
}
  where
    inside : Knows fits s.shared storing
    inside = rw at at (v.places i)
move-IsValid fits n s i stopped lt at move v = elim move [ ]

Step-IsValid :
    {fits : Keypair → Bool} {n : ℕ} {s t : System}
    → Step fits n s t
    → IsValid fits n s
    → IsValid fits n t
Step-IsValid {fits} {n} {s} (pick i lt move) v = move-IsValid fits n s i (s.pc i) lt refl move v

start-IsValid : (fits : Keypair → Bool) (n : ℕ) → IsValid fits n start
start-IsValid fits n = record {
  fitting = tt;
  announced = λ e. cc;
  places = λ i. tt;
  one_inside = λ i j hi hj. cc;
  held = λ h. cc;
}

-- Under every interleaving: a key pair in the slot fits; `found` is set only with the slot filled; a
-- thread is out of the loop only with the slot filled; and one thread at most is inside the lock.
pub Reach-IsValid : {fits : Keypair → Bool} {n : ℕ} {s : System} → Reach fits n s → IsValid fits n s
Reach-IsValid {fits} {n} begin = start-IsValid fits n
Reach-IsValid (then_ r step) = Step-IsValid step (Reach-IsValid r)

Move-keeps :
    {fits : Keypair → Bool} {s m : Shared} {p q : Pc} (kp : Keypair)
    → Move fits s p m q
    → s.winner ≡ some kp
    → m.winner ≡ some kp
Move-keeps kp goes_on h = h
Move-keeps kp (leaves x) h = h
Move-keeps kp (misses k x) h = h
Move-keeps kp (hits k x) h = h
Move-keeps kp (takes_slot k x y) h = cc
Move-keeps kp (too_late k old x y) h = h
Move-keeps kp stores_found h = h

-- Steps from one state to another.
pub data Steps (fits : Keypair → Bool) (n : ℕ) (s : System) : System → Type 0 where
  none_ : Steps fits n s s
  more : {t u : System} → Steps fits n s t → Step fits n t u → Steps fits n s u

-- The first winner stays, whatever the threads do after it.
pub winner_stays :
    {fits : Keypair → Bool} {n : ℕ} {s t : System} (kp : Keypair)
    → Steps fits n s t
    → s.shared.winner ≡ some kp
    → t.shared.winner ≡ some kp
winner_stays kp none_ h = h
winner_stays kp (more r (pick i lt move)) h = Move-keeps kp move (winner_stays kp r h)

-- When `run` has joined its threads, of which there is one at least, the slot holds a key pair whose
-- address ends with the suffix, so that the error of an empty slot is not raised: what is left is to
-- write the key pair.
pub finish-AllStopped :
    (host : Host) (args : Args) (elapsed : Text) (s : System)
    → 0 < args.threads
    → Reach (matches host args.suffix) args.threads s
    → AllStopped args.threads s
    → (kp : Keypair) × (s.shared.winner ≡ some kp)
      × (matches host args.suffix kp ≡ true)
      × (finish host args elapsed s.shared
          ≢ fail (internal (ascii "grinder exited without a result")))
unfolding finish
finish-AllStopped host args elapsed s many r all = elim (Option-cases s.shared.winner) [
  | inl e ↦ absurd (filled e)
  | inr (kp, e) ↦ (kp, e, rw e at (v.fitting), λ h. ground arith)
]
  where
    v : IsValid (matches host args.suffix) args.threads s
    v = Reach-IsValid r

    filled : s.shared.winner ≢ none
    filled = rw (all 0 many) at (v.places 0)

Step-at :
    {fits : Keypair → Bool} {n : ℕ} {s : System} (i : ℕ) (p : Pc) {m : Shared} {q : Pc}
    → i < n
    → s.pc i ≡ p
    → Move fits s.shared p m q
    → (t : System) × Step fits n s t
Step-at {fits} {s = s} i p {m} {q} lt at move =
    (_, pick i lt (subst (λ x. Move fits s.shared x m q) (sym at) move))

next-Step :
    {fits : Keypair → Bool} {n : ℕ} {s : System} (i : ℕ) (kp : Keypair) (p : Pc)
    → IsValid fits n s
    → i < n
    → s.pc i ≡ p
    → p ≢ stopped
    → (t : System) × Step fits n s t
next-Step i kp testing v lt at busy = Step-at i testing lt at goes_on
next-Step {fits} i kp drawing v lt at busy = elim (Bool-cases (fits kp)) [
  | inl yes_ ↦ Step-at i drawing lt at (hits kp yes_)
  | inr no_ ↦ Step-at i drawing lt at (misses kp no_)
]
next-Step i kp storing v lt at busy = Step-at i storing lt at stores_found
next-Step {s = s} i kp (locking k) v lt at busy = elim (Bool-cases s.shared.locked) [
  | inl held ↦ let (j, lt', at') = v.held held in Step-at j storing lt' at' stores_found
  | inr free ↦ elim (Option-cases s.shared.winner) [
    | inl e ↦ Step-at i (locking k) lt at (takes_slot k free e)
    | inr (old, e) ↦ Step-at i (locking k) lt at (too_late k old free e)
  ]
]
next-Step i kp stopped v lt at busy = absurd (busy refl)

-- In every state that the threads reach, if some thread is in the loop and there is a key pair to
-- draw, then some thread can take a step: the lock and the flag never block all of them.
pub progress :
    {fits : Keypair → Bool} {n : ℕ} {s : System} (i : ℕ) (kp : Keypair)
    → Reach fits n s
    → i < n
    → s.pc i ≢ stopped
    → (t : System) × Step fits n s t
progress {s = s} i kp r lt busy = next-Step i kp (s.pc i) (Reach-IsValid r) lt refl busy
