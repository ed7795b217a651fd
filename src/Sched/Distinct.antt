-- ===== src/Sched/Distinct.antt =====
-- Lists of processes without repetition, all of them ready.
use new_os.Base.{
  ℕ, ◌<◌, ◌≡◌, ◌≢◌, ◌∙◌, ap, arith, length, List, [], ◌∷◌, ◌++◌, get_or, set, get_or-set_ne,
  get_or-set, length-set, Bool-cases, ◌==◌, inl, inr,
}
use new_os.Sched.{Process, ready, null_process}
use new_os.Sched.Remove.{erase}

abbrev pub Absent : ℕ → List ℕ → Type 0
Absent p [] = Unit
Absent p (x ∷ xs) = (x ≢ p) × Absent p xs

abbrev pub Distinct : List ℕ → Type 0
Distinct [] = Unit
Distinct (x ∷ xs) = Absent x xs × Distinct xs

-- Every process of the list exists and is ready.
abbrev pub AllReady : List Process → List ℕ → Type 0
AllReady t [] = Unit
AllReady t (x ∷ xs) = (x < length t) × ((get_or t x null_process).state ≡ ready) × AllReady t xs

pub Absent-snoc : (p x : ℕ) (q : List ℕ) → Absent p q → x ≢ p → Absent p (q ++ (x ∷ []))
Absent-snoc p x [] a ne = (ne, tt)
Absent-snoc p x (y ∷ q) a ne = (a.0, Absent-snoc p x q a.1 ne)

pub Distinct-snoc : (p : ℕ) (q : List ℕ) → Distinct q → Absent p q → Distinct (q ++ (p ∷ []))
Distinct-snoc p [] d a = (tt, tt)
Distinct-snoc p (y ∷ q) d a =
    (Absent-snoc y p q d.0 (λ e. a.0 (omega arith)), Distinct-snoc p q d.1 a.1)

pub AllReady-snoc :
    (t : List Process) (p : ℕ) (q : List ℕ)
    → AllReady t q
    → p < length t
    → (get_or t p null_process).state ≡ ready
    → AllReady t (q ++ (p ∷ []))
AllReady-snoc t p [] r h e = (h, e, tt)
AllReady-snoc t p (y ∷ q) r h e = (r.0, r.1, AllReady-snoc t p q r.2 h e)

-- A process that is not ready is not in the list.
pub Absent-of_state :
    (t : List Process) (p : ℕ) (q : List ℕ)
    → AllReady t q
    → (get_or t p null_process).state ≢ ready
    → Absent p q
Absent-of_state t p [] r ne = tt
Absent-of_state t p (y ∷ q) r ne = (
  λ e. ne (ap (λ (k : ℕ). (get_or t k null_process).state) (omega arith) ∙ r.1),
  Absent-of_state t p q r.2 ne,
)

-- Writing a process outside of the list.
pub AllReady-set :
    (t : List Process) (p : ℕ) (x : Process) (q : List ℕ)
    → AllReady t q
    → Absent p q
    → AllReady (set t p x) q
AllReady-set t p x [] r a = tt
AllReady-set t p x (y ∷ q) r a = (
  omega (arith, r.0, length-set t p x),
  ap (λ (z : Process). z.state) (get_or-set_ne t p y x null_process (λ e. a.0 (omega arith))) ∙ r.1,
  AllReady-set t p x q r.2 a.1,
)

Absent-erase : (y p : ℕ) (q : List ℕ) → Absent y q → Absent y (erase p q)
unfolding erase
Absent-erase y p [] a = tt
Absent-erase y p (x ∷ q) a = ground (arith, Absent-erase y p q)

pub Distinct-erase : (p : ℕ) (q : List ℕ) → Distinct q → Distinct (erase p q)
unfolding erase
Distinct-erase p [] d = tt
Distinct-erase p (x ∷ q) d = ground (arith, Distinct-erase p q, Absent-erase x p q)

pub Absent-erase_self : (p : ℕ) (q : List ℕ) → Distinct q → Absent p (erase p q)
unfolding erase
Absent-erase_self p [] d = tt
Absent-erase_self p (x ∷ q) d = elim (Bool-cases (x == p)) [
  | inl hit ↦ rw hit (let e : x ≡ p = ground arith in rw e at d.0)
  | inr miss ↦ rw miss ((λ e. ground arith), Absent-erase_self p q d.1)
]

pub AllReady-erase : (t : List Process) (p : ℕ) (q : List ℕ) → AllReady t q → AllReady t (erase p q)
unfolding erase
AllReady-erase t p [] r = tt
AllReady-erase t p (x ∷ q) r = elim (Bool-cases (x == p)) [
  | inl hit ↦ rw hit r.2
  | inr miss ↦ rw miss (r.0, r.1, AllReady-erase t p q r.2)
]

-- The list without a process is ready even where that process has changed.
pub AllReady-set-erase :
    (t : List Process) (p : ℕ) (x : Process) (q : List ℕ)
    → AllReady t q
    → Distinct q
    → AllReady (set t p x) (erase p q)
AllReady-set-erase t p x q r d =
    AllReady-set t p x (erase p q) (AllReady-erase t p q r) (Absent-erase_self p q d)

-- Writing a process without a change of its state.
pub AllReady-set_same :
    (t : List Process) (p : ℕ) (x : Process) (q : List ℕ)
    → AllReady t q
    → p < length t
    → x.state ≡ (get_or t p null_process).state
    → AllReady (set t p x) q
AllReady-set_same t p x [] r h e = tt
AllReady-set_same t p x (y ∷ q) r h e = (
  omega (arith, r.0, length-set t p x),
  elim (get_or-set t p y x null_process h) [
    | inl (here, now) ↦
        ap (λ (z : Process). z.state) now
        ∙ e
        ∙ ap (λ (k : ℕ). (get_or t k null_process).state) here
        ∙ r.1
    | inr (_, same) ↦ ap (λ (z : Process). z.state) same ∙ r.1
  ],
  AllReady-set_same t p x q r.2 h e,
)
