-- ===== src/Client/Running.antt =====
-- How a call of the client in zk/conn.go runs, in terms of its parts.
use go_zookeeper.Base.{◌≡◌, refl, sym, ap, ◌∙◌, ℤ, Bytes, Bool, Option}
use go_zookeeper.Constants.{Error}
use go_zookeeper.Wire.{Result, Fault, ok, err, panic}
use go_zookeeper.Wire.Value.{Kind, Value}
use go_zookeeper.Conn.{Conn, RecvFunc, Response, new_request}
use go_zookeeper.Watch.{Event}
use go_zookeeper.Paths.{Utf8, validate_path}
use go_zookeeper.Client.{
  Call, returns, panics, asks, remembers, draws, waits, ◌>>=◌, World, run, with_valid,
}

pub run-refused {ℓ} :
    {A : Type ℓ} (u : Utf8) (w : World) (c : Conn) (path : Bytes) (is_sequential : Bool) (e : Error)
    (refused : Error → A) (next : Call A)
    → validate_path u path is_sequential ≡ err e
    → run w (with_valid u path is_sequential refused next) c ≡ ok (c, refused e)
unfolding with_valid run
run-refused u w c path is_sequential e refused next h = rw (with_valid, h)

pub run-crashed {ℓ} :
    {A : Type ℓ} (u : Utf8) (w : World) (c : Conn) (path : Bytes) (is_sequential : Bool) (f : Fault)
    (refused : Error → A) (next : Call A)
    → validate_path u path is_sequential ≡ panic f
    → run w (with_valid u path is_sequential refused next) c ≡ panic f
unfolding with_valid run
run-crashed u w c path is_sequential f refused next h = rw (with_valid, h)

pub run-valid {ℓ} :
    {A : Type ℓ} (u : Utf8) (w : World) (c : Conn) (path : Bytes) (is_sequential : Bool)
    (refused : Error → A) (next : Call A)
    → validate_path u path is_sequential ≡ ok tt
    → run w (with_valid u path is_sequential refused next) c ≡ run w next c
unfolding with_valid
run-valid u w c path is_sequential refused next h = rw (with_valid, h)

pub run-answered {ℓ} :
    {A : Type ℓ} (w : World) (o : ℤ) (pkt : Value) (k : Kind) (func : RecvFunc)
    (rest : Response → Call A) (c : Conn) (p : Conn × Response)
    → (let n = new_request o pkt k func c in w.exchange n.1 n.0) ≡ p
    → run w (asks o pkt k func rest) c ≡ run w (rest p.1) p.0
unfolding run
run-answered w o pkt k func rest c p h = ap (λ (t : Conn × Response). run w (rest t.1) t.0) h

-- A call with a valid path, whose request is answered
pub run-call {ℓ} :
    {A : Type ℓ} (u : Utf8) (w : World) (c : Conn) (path : Bytes) (is_sequential : Bool) (o : ℤ)
    (pkt : Value) (k : Kind) (func : RecvFunc) (p : Conn × Response) (refused : Error → A)
    (rest : Response → Call A)
    → validate_path u path is_sequential ≡ ok tt
    → (let n = new_request o pkt k func c in w.exchange n.1 n.0) ≡ p
    → run w (with_valid u path is_sequential refused (asks o pkt k func rest)) c
      ≡ run w (rest p.1) p.0
run-call u w c path is_sequential o pkt k func p refused rest valid h =
    run-valid u w c path is_sequential refused (asks o pkt k func rest) valid
    ∙ run-answered w o pkt k func rest c p h

-- What follows a program, with the value that it returned
abbrev pub run_next {ℓ κ} :
    {A : Type ℓ} {B : Type κ} → World → (A → Call B) → Result (Conn × A) → Result (Conn × B)
run_next w f (ok (c, a)) = run w (f a) c
run_next w f (err e) = err e
run_next w f (panic p) = panic p

pub run-bind {ℓ κ} :
    {A : Type ℓ} {B : Type κ} (w : World) (m : Call A) (f : A → Call B) (c : Conn)
    → run w (m >>= f) c ≡ run_next w f (run w m c)
unfolding run ◌>>=◌
run-bind w (returns a) f c = refl
run-bind w (panics p) f c = refl
run-bind w (asks o pkt k func rest) f c =
    let n = new_request o pkt k func c in
    let (c', r) = w.exchange n.1 n.0 in run-bind w (rest r) f c'
run-bind w (remembers cred rest) f c = run-bind w rest f _
run-bind w (draws rest) f c = let (c', (e, bs)) = w.random c in run-bind w (rest e bs) f c'
run-bind w (waits ch rest) f c = let (c', ev) = w.event ch c in run-bind w (rest ev) f c'

-- A program with a result has run through its first part.
pub run-bind_ok {ℓ κ} :
    {A : Type ℓ} {B : Type κ} (w : World) (m : Call A) (f : A → Call B) (c c' : Conn) (b : B)
    → run w (m >>= f) c ≡ ok (c', b)
    → (c₁ : Conn) × (a : A) × (run w m c ≡ ok (c₁, a)) × (run w (f a) c₁ ≡ ok (c', b))
run-bind_ok {A} w m f c c' b h = go (run w m c) refl (sym (run-bind w m f c) ∙ h)
  where
    go :
        (r : Result (Conn × A))
        → run w m c ≡ r
        → run_next w f r ≡ ok (c', b)
        → (c₁ : Conn) × (a : A) × (run w m c ≡ ok (c₁, a)) × (run w (f a) c₁ ≡ ok (c', b))
    go (ok (c₁, a)) e k = (c₁, a, e, k)
    go (err x) e k = cc
    go (panic p) e k = cc

-- What holds of every value that a program can return.
abbrev pub Every {ℓ} : {A : Type ℓ} → (A → Type 0) → Call A → Type 0
Every P (returns a) = P a
Every P (panics p) = Unit
Every P (asks o pkt k func rest) = (r : Response) → Every P (rest r)
Every P (remembers cred rest) = Every P rest
Every P (draws rest) = (e : Option Error) (bs : Bytes) → Every P (rest e bs)
Every P (waits ch rest) = (ev : Event) → Every P (rest ev)

pub Every-bind {ℓ κ} :
    {A : Type ℓ} {B : Type κ} (P : B → Type 0) (m : Call A) (f : A → Call B)
    → ((a : A) → Every P (f a))
    → Every P (m >>= f)
unfolding ◌>>=◌
Every-bind P (returns a) f h = h a
Every-bind P (panics p) f h = tt
Every-bind P (asks o pkt k func rest) f h = λ r. Every-bind P (rest r) f h
Every-bind P (remembers cred rest) f h = Every-bind P rest f h
Every-bind P (draws rest) f h = λ e bs. Every-bind P (rest e bs) f h
Every-bind P (waits ch rest) f h = λ ev. Every-bind P (rest ev) f h

pub Every-with_valid {ℓ} :
    {A : Type ℓ} (P : A → Type 0) (u : Utf8) (path : Bytes) (is_sequential : Bool)
    (refused : Error → A) (next : Call A)
    → ((e : Error) → P (refused e))
    → Every P next
    → Every P (with_valid u path is_sequential refused next)
unfolding with_valid
Every-with_valid P u path is_sequential refused next h k =
    elim (validate_path u path is_sequential)
      as (λ r.
        Every P (elim r [ ok t ↦ next | err e ↦ returns (refused e) | panic p ↦ panics p ])) [
          | ok t ↦ k
          | err e ↦ h e
          | panic p ↦ tt
        ]

pub run-Every {ℓ} :
    {A : Type ℓ} (P : A → Type 0) (w : World) (m : Call A) (c c' : Conn) (a : A)
    → Every P m
    → run w m c ≡ ok (c', a)
    → P a
unfolding run
run-Every P w (returns b) c c' a h e = let same : b ≡ a = cc in rw (← same) h
run-Every P w (panics p) c c' a h e = cc
run-Every P w (asks o pkt k func rest) c c' a h e =
    let n = new_request o pkt k func c in
    let (c₁, r) = w.exchange n.1 n.0 in run-Every P w (rest r) c₁ c' a (h r) e
run-Every P w (remembers cred rest) c c' a h e = run-Every P w rest _ c' a h e
run-Every P w (draws rest) c c' a h e =
    let (c₁, (x, bs)) = w.random c in run-Every P w (rest x bs) c₁ c' a (h x bs) e
run-Every P w (waits ch rest) c c' a h e =
    let (c₁, ev) = w.event ch c in run-Every P w (rest ev) c₁ c' a (h ev) e
