-- ===== src/Backends/Tcp/Pool.antt =====
-- The pool as its users see it: whatever the order in which requests take, open, give back and
-- retire connections, nothing is lost, nothing is shared and nothing exceeds the size.
use modbusgw.Base.{
  ℕ, suc, ◌+◌, ◌-◌, ◌≤◌, ◌<◌, true, List, [], ◌∷◌, ◌++◌, String, ◌==◌, ltb, if◌then◌else◌, length,
  length-append, ◌≡◌, refl, ap, ◌∙◌, subst, arith,
}
use modbusgw.Backends.Tcp.{
  TcpBackend, new_backend, elem, remove, taken, opened, released, retired, closed,
}

-- How often `c` stands in a list.
abbrev pub count : ℕ → List ℕ → ℕ
count c [] = 0
count c (d ∷ rest) = if c == d then suc (count c rest) else count c rest

-- One change of the pool, beside the connections that requests have in use. A new connection is
-- entered under the lock, below the size; `close` comes when no request is under way.
pub data Change : TcpBackend → List ℕ → TcpBackend → List ℕ → Type 0 where
  takes :
      {t : TcpBackend} {out : List ℕ} (c : ℕ) (rest : List ℕ)
      → t.available ≡ c ∷ rest
      → Change t out (taken t rest) (c ∷ out)
  opens :
      {t : TcpBackend} {out : List ℕ}
      → t.total < t.pool_size
      → Change t out (opened t) (t.made ∷ out)
  gives_back :
      {t : TcpBackend} {out : List ℕ} (c : ℕ)
      → 0 < count c out
      → Change t out (released t c) (remove c out)
  retires :
      {t : TcpBackend} {out : List ℕ} (c : ℕ)
      → 0 < count c out
      → Change t out (retired t c) (remove c out)
  closes : {t : TcpBackend} → Change t [] (closed t) []

pub data Reaches (start : TcpBackend) : TcpBackend → List ℕ → Type 0 where
  starts : Reaches start start []
  goes :
      {t t' : TcpBackend} {out out' : List ℕ}
      → Reaches start t out
      → Change t out t' out'
      → Reaches start t' out'

-- The connections are those that are free and those in use, each once; their number is the counter
-- and within the size.
pub record IsSound (t : TcpBackend) (out : List ℕ) : Type 0 where
  pub split : (c : ℕ) → count c t.available + count c out ≡ count c t.connections
  pub once : (c : ℕ) → count c t.connections ≤ (if ltb c t.made then 1 else 0)
  pub total : t.total ≡ length t.available + length out
  pub size : t.total ≤ t.pool_size

count-append : (c : ℕ) (xs ys : List ℕ) → count c (xs ++ ys) ≡ count c xs + count c ys
count-append c [] ys = omega arith
count-append c (x ∷ xs) ys = ground (arith, count-append c xs ys)

count-remove :
    (c d : ℕ) (xs : List ℕ) → count d (remove c xs) ≡ count d xs - (if c == d then 1 else 0)
unfolding remove
count-remove c d [] = ground arith
count-remove c d (x ∷ xs) = ground (arith, count-remove c d xs)

length-remove : (c : ℕ) (xs : List ℕ) → 0 < count c xs → length (remove c xs) ≡ length xs - 1
unfolding remove
length-remove c [] h = absurd (omega arith)
length-remove c (x ∷ xs) h = ground (arith, length-remove c xs, length_of_counted c xs)
  where
    length_of_counted : (c : ℕ) (xs : List ℕ) → 0 < count c xs → 0 < length xs
    length_of_counted c [] h = absurd (omega arith)
    length_of_counted c (x ∷ xs) h = omega arith

elem-count : (c : ℕ) (xs : List ℕ) → elem c xs ≡ ltb 0 (count c xs)
unfolding elem
elem-count c [] = ground arith
elem-count c (x ∷ xs) = ground (arith, elem-count c xs)

count-length : (c : ℕ) (xs : List ℕ) → count c xs ≤ length xs
count-length c [] = omega arith
count-length c (x ∷ xs) = ground (arith, count-length c xs)

-- A number that equals `c` is counted as `c` is.
same : (c d : ℕ) → c ≡ d → (xs : List ℕ) → count c xs ≡ count d xs
same c d e xs = ap (λ x. count x xs) e

closed-IsSound : (t : TcpBackend) → IsSound (closed t) []
unfolding closed
closed-IsSound t = record {
  split = λ c. refl;
  once = λ c. omega arith;
  total = refl;
  size = omega arith;
}

pub taken-IsSound :
    (t : TcpBackend) (out : List ℕ) (c : ℕ) (rest : List ℕ)
    → t.available ≡ c ∷ rest
    → IsSound t out
    → IsSound (taken t rest) (c ∷ out)
unfolding taken
taken-IsSound t out c rest e s =
    let split : (d : ℕ) → count d (c ∷ rest) + count d out ≡ count d t.connections =
      subst (λ xs. (d : ℕ) → count d xs + count d out ≡ count d t.connections) e s.split in
    let total : t.total ≡ length (c ∷ rest) + length out =
      subst (λ xs. t.total ≡ length xs + length out) e s.total in
    record {
      split = λ d. ground (arith, split d);
      once = s.once;
      total = omega (arith, total);
      size = s.size;
    }

pub opened-IsSound :
    (t : TcpBackend) (out : List ℕ)
    → t.total < t.pool_size
    → IsSound t out
    → IsSound (opened t) (t.made ∷ out)
unfolding opened
opened-IsSound t out h s = record {
  split = λ d. ground (arith, s.split d);
  once = λ d. ground (arith, s.once d);
  total = omega (arith, s.total);
  size = omega arith;
}

pub released-IsSound :
    (t : TcpBackend) (out : List ℕ) (c : ℕ)
    → 0 < count c out
    → IsSound t out
    → IsSound (released t c) (remove c out)
unfolding released
released-IsSound t out c h s = record {
  split = λ d. ground (
    arith,
    s.split d,
    count-append d t.available (c ∷ []),
    count-remove c d out,
    (λ (e : c ≡ d). same c d e out),
  );
  once = s.once;
  total = omega (
    arith,
    s.total,
    length-append t.available (c ∷ []),
    length-remove c out h,
    count-length c out,
  );
  size = s.size;
}

pub retired-IsSound :
    (t : TcpBackend) (out : List ℕ) (c : ℕ)
    → 0 < count c out
    → IsSound t out
    → IsSound (retired t c) (remove c out)
unfolding retired
retired-IsSound t out c h s =
    let there : elem c t.connections ≡ true =
      ground (arith, elem-count c t.connections, s.split c) in
    rw there (record {
      split = λ d. ground (
        arith,
        s.split d,
        count-remove c d out,
        count-remove c d t.connections,
        (λ (e : c ≡ d). same c d e out),
      );
      once = λ d. omega (arith, s.once d, count-remove c d t.connections);
      total = omega (arith, s.total, length-remove c out h, count-length c out);
      size = omega (arith, s.size);
    })

Change-IsSound :
    {t t' : TcpBackend} {out out' : List ℕ} → Change t out t' out' → IsSound t out → IsSound t' out'
Change-IsSound {t} {out} (takes c rest e) s = taken-IsSound t out c rest e s
Change-IsSound {t} {out} (opens h) s = opened-IsSound t out h s
Change-IsSound {t} {out} (gives_back c h) s = released-IsSound t out c h s
Change-IsSound {t} {out} (retires c h) s = retired-IsSound t out c h s
Change-IsSound {t} closes s = closed-IsSound t

pub new_backend-IsSound : (name : String) (size : ℕ) → IsSound (new_backend name size) []
unfolding new_backend
new_backend-IsSound name size = record {
  split = λ c. refl;
  once = λ c. omega arith;
  total = refl;
  size = omega arith;
}

Reaches-IsSound :
    {start t : TcpBackend} {out : List ℕ} → IsSound start [] → Reaches start t out → IsSound t out
Reaches-IsSound s starts = s
Reaches-IsSound s (goes before change) = Change-IsSound change (Reaches-IsSound s before)

pub pool_size-retired : (t : TcpBackend) (c : ℕ) → (retired t c).pool_size ≡ t.pool_size
unfolding retired
pool_size-retired t c = ground arith

Change-pool_size :
    {t t' : TcpBackend} {out out' : List ℕ} → Change t out t' out' → t'.pool_size ≡ t.pool_size
unfolding taken opened released closed
Change-pool_size (takes c rest e) = refl
Change-pool_size (opens h) = refl
Change-pool_size (gives_back c h) = refl
Change-pool_size {t} (retires c h) = pool_size-retired t c
Change-pool_size closes = refl

Reaches-pool_size :
    {start t : TcpBackend} {out : List ℕ} → Reaches start t out → t.pool_size ≡ start.pool_size
Reaches-pool_size starts = refl
Reaches-pool_size (goes before change) = Change-pool_size change ∙ Reaches-pool_size before

-- In every pool that can come about, in whatever order requests take, open, give back and retire
-- connections, no connection is used by two requests at once, or by one while it counts as free,
-- and those that are free and those in use are at most `pool_size`.
pub pool_is_exclusive :
    (name : String) (size : ℕ) {t : TcpBackend} {out : List ℕ}
    → Reaches (new_backend name size) t out
    → ((c : ℕ) → count c t.available + count c out ≤ 1) × (length t.available + length out ≤ size)
pool_is_exclusive name size {t} {out} r =
    let s = Reaches-IsSound (new_backend-IsSound name size) r in
    let same_size : t.pool_size ≡ size = unfold new_backend in Reaches-pool_size r in
    (λ c. ground (arith, s.split c, s.once c), omega (arith, s.total, s.size, same_size))
