-- ===== src/Solcom/Server/Swept.antt =====
-- The loop of the heart-beat timer of the server, and the map of the clients.
use cpp_linux_learn.Common.{
  ◌>>=◌, ℕ, ◌≡◌, ◌≢◌, refl, ap, ap₂, sym, ◌∙◌, Bool, true, false, Option, none, some, List, [], ◌∷◌,
  ◌++◌, arith, inl, inr, Option-cases, Bool-cases, get_elem?, set, get_elem?-set_self,
  get_elem?-set_ne, if◌then◌else◌,
}
use cpp_linux_learn.Solcom.Server.{Client, ServerEvent, deref, is_idle, close_conn, sweep}

-- No key of the map has the pointer `q`.
abbrev pub Absent : ℕ → List (ℕ × ℕ) → Type 0
Absent q [] = Unit {0}
Absent q ((key, p) ∷ m) = (p ≢ q) × Absent q m

-- The clients of the map are allocated, and each has one key.
abbrev pub IsAlive : List (Option Client) → List (ℕ × ℕ) → Type 0
IsAlive heap [] = Unit {0}
IsAlive heap ((key, p) ∷ m) = ((c : Client) × (deref heap p ≡ some c)) × Absent p m × IsAlive heap m

-- The entries of the clients that are not idle, in the same order.
abbrev pub idle_of : ℕ → Option Client → Bool
idle_of now none = false
idle_of now (some c) = is_idle now c

abbrev pub kept : ℕ → List (Option Client) → List (ℕ × ℕ) → List (ℕ × ℕ)
kept now heap [] = []
kept now heap ((key, p) ∷ m) =
    let rest = kept now heap m in if idle_of now (deref heap p) then rest else (key, p) ∷ rest

pub deref-set_ne :
    (heap : List (Option Client)) (p q : ℕ) (o : Option Client)
    → p ≢ q
    → deref (set heap p o) q ≡ deref heap q
deref-set_ne heap p q o h = ap (λ x. x >>= (λ c. c)) (get_elem?-set_ne heap p q o h)

pub deref-set-none :
    (heap : List (Option Client)) (p : ℕ) (c : Client)
    → deref heap p ≡ some c
    → deref (set heap p none) p ≡ none
deref-set-none heap p c e = elim (Option-cases (get_elem? heap p)) [
  | inl f ↦ absurd (ground (arith, f, e))
  | inr (o, f) ↦ rw (get_elem?-set_self heap p o none f) refl
]

pub IsAlive-elsewhere :
    (heap : List (Option Client)) (p : ℕ) (m : List (ℕ × ℕ))
    → Absent p m
    → IsAlive heap m
    → IsAlive (set heap p none) m
IsAlive-elsewhere heap p [] n a = tt
IsAlive-elsewhere heap p ((key, q) ∷ m) (n, ns) ((c, e), d, a) =
    ((c, deref-set_ne heap p q none (λ x. n (sym x)) ∙ e), d, IsAlive-elsewhere heap p m ns a)

kept_elsewhere :
    (now : ℕ) (heap : List (Option Client)) (p : ℕ) (m : List (ℕ × ℕ))
    → Absent p m
    → kept now (set heap p none) m ≡ kept now heap m
kept_elsewhere now heap p [] n = refl
kept_elsewhere now heap p ((key, q) ∷ m) (n, ns) =
    ap₂ (λ b rest. if b then rest else (key, q) ∷ rest)
      (ap (idle_of now) (deref-set_ne heap p q none (λ x. n (sym x))))
      (kept_elsewhere now heap p m ns)

kept-cons :
    (now key p : ℕ) (heap : List (Option Client)) (m : List (ℕ × ℕ)) (c : Client) (b : Bool)
    → deref heap p ≡ some c
    → is_idle now c ≡ b
    → kept now heap ((key, p) ∷ m) ≡ (if b then kept now heap m else (key, p) ∷ kept now heap m)
kept-cons now key p heap m c b e i =
    ap (λ x. if x then kept now heap m else (key, p) ∷ kept now heap m) (ap (idle_of now) e ∙ i)

-- A sweep that succeeds, and what it leaves.
pub record Swept (now : ℕ) (heap : List (Option Client)) (m : List (ℕ × ℕ)) : Type 0 where
  pub heap' : List (Option Client)
  pub m' : List (ℕ × ℕ)
  pub events : List ServerEvent
  pub runs : sweep now heap m ≡ some (heap', m', events)
  pub keeps : m' ≡ kept now heap m
  pub alive : IsAlive heap' m'
  pub others : (q : ℕ) → Absent q m → deref heap' q ≡ deref heap q
  pub absent : (q : ℕ) → Absent q m → Absent q m'

pub swept :
    (now : ℕ) (heap : List (Option Client)) (m : List (ℕ × ℕ)) → IsAlive heap m → Swept now heap m
unfolding sweep
swept now heap [] a = record {
  heap' = heap;
  m' = [];
  events = [];
  runs = refl;
  keeps = refl;
  alive = tt;
  others = λ q n. refl;
  absent = λ q n. n;
}
swept now heap ((key, p) ∷ m) ((c, e), d, a) = elim (Bool-cases (is_idle now c)) [
  | inl i ↦
      let s = swept now (set heap p none) m (IsAlive-elsewhere heap p m d a) in
      record {
        heap' = s.heap';
        m' = s.m';
        events = (close_conn p c).1 ++ s.events;
        runs = rw (e, ◌>>=◌) (rw i (rw (s.runs, ◌>>=◌) refl));
        keeps =
            s.keeps ∙ kept_elsewhere now heap p m d ∙ sym (kept-cons now key p heap m c true e i);
        alive = s.alive;
        others = λ q n. s.others q n.1 ∙ deref-set_ne heap p q none n.0;
        absent = λ q n. s.absent q n.1;
      }
  | inr i ↦
      let s = swept now heap m a in
      record {
        heap' = s.heap';
        m' = (key, p) ∷ s.m';
        events = s.events;
        runs = rw (e, ◌>>=◌) (rw i (rw (s.runs, ◌>>=◌) refl));
        keeps = ap (◌∷◌ (key, p)) s.keeps ∙ sym (kept-cons now key p heap m c false e i);
        alive = ((c, s.others p d ∙ e), s.absent p d, s.alive);
        others = λ q n. s.others q n.1;
        absent = λ q n. (n.0, s.absent q n.1);
      }
]
