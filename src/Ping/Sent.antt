-- ===== src/Ping/Sent.antt =====
-- What a monitor has sent, by a log of the calls of sendto(2).
use conwatch.Prelude.{
  ℕ, ◌+◌, ◌≤◌, ◌≡◌, sym, ap, ◌∙◌, List, [], ◌∷◌, ◌++◌, Text, ℤ, length, length-append, arith,
}
use mathlib.Core.List.{append_assoc}
use conwatch.Ping.{System, Monitor}
use conwatch.Ping.Sockets.{open_socket4, open_socket6, close_open}
use conwatch.Ping.Unseen.{Unseen, prepare-unseen, close_open-unseen}

-- A packet and the address that it went to.
abbrev pub Log : Type 0
Log = List (List ℕ × Text)

abbrev pub All : (List ℕ × Text → Type 0) → Log → Type 0
All P [] = Unit {0}
All P (e ∷ es) = P e × All P es

pub All-append : (P : List ℕ × Text → Type 0) (xs ys : Log) → All P xs → All P ys → All P (xs ++ ys)
All-append P [] ys p q = q
All-append P (x ∷ xs) ys p q = (p.0, All-append P xs ys p.1 q)

pub All-map :
    (P Q : List ℕ × Text → Type 0) (xs : Log)
    → ((e : List ℕ × Text) → P e → Q e)
    → All P xs
    → All Q xs
All-map P Q [] f p = tt
All-map P Q (x ∷ xs) f p = (f x p.0, All-map P Q xs f p.1)

-- From `old` to `now` at most n packets were sent, and each is such a one.
pub record Sends (P : List ℕ × Text → Type 0) (n : ℕ) (old now : Log) : Type 0 where
  pub new : Log
  pub added : now ≡ new ++ old
  pub few : length new ≤ n
  pub all : All P new

pub Sends-none :
    (P : List ℕ × Text → Type 0) (n : ℕ) (old now : Log) → now ≡ old → Sends P n old now
Sends-none P n old now e = record { new = []; added = e; few = omega arith; all = tt }

pub Sends-one :
    (P : List ℕ × Text → Type 0) (old now : Log) (e : List ℕ × Text)
    → P e
    → now ≡ e ∷ old
    → Sends P 1 old now
Sends-one P old now e p h = record { new = e ∷ []; added = h; few = omega arith; all = (p, tt) }

pub Sends-trans :
    (P : List ℕ × Text → Type 0) (n k : ℕ) (a b c : Log)
    → Sends P n a b
    → Sends P k b c
    → Sends P (n + k) a c
Sends-trans P n k a b c s t = record {
  new = t.new ++ s.new;
  added = t.added ∙ ap (λ l. t.new ++ l) s.added ∙ sym (append_assoc t.new s.new a);
  few = omega (arith, length-append t.new s.new, s.few, t.few);
  all = All-append P t.new s.new t.all s.all;
}

pub Sends-weaken :
    (P Q : List ℕ × Text → Type 0) (n k : ℕ) (a b : Log)
    → ((e : List ℕ × Text) → P e → Q e)
    → n ≤ k
    → Sends P n a b
    → Sends Q k a b
Sends-weaken P Q n k a b f le s = record {
  new = s.new;
  added = s.added;
  few = omega (arith, s.few);
  all = All-map P Q s.new f s.all;
}

-- `log w` lists what sendto was asked to send before w, the latest first: no other call adds to it.
pub record IsLog (sys : System) (log : sys.World → Log) : Type 0 where
  pub unseen : Unseen sys log
  pub made4 : (w : sys.World) → log (sys.socket4 w).1 ≡ log w
  pub made6 : (w : sys.World) → log (sys.socket6 w).1 ≡ log w
  pub sent :
      (s : ℤ) (packet : List ℕ) (to : Text) (w : sys.World)
      → log (sys.sendto s packet to w).1 ≡ (packet, to) ∷ log w

module _ (sys : System) (log : sys.World → Log) (lawful : IsLog sys log) where
  pub open_socket4-log : (m : Monitor sys) → log (open_socket4 sys m).world ≡ log m.world
  unfolding open_socket4
  open_socket4-log m =
      let w = close_open sys m.v4.sock m.world in
      let (s, w') = sys.socket4 w in
      prepare-unseen sys log lawful.unseen s m.iface w'
      ∙ lawful.made4 w
      ∙ close_open-unseen sys log lawful.unseen m.v4.sock m.world

  pub open_socket6-log : (m : Monitor sys) → log (open_socket6 sys m).world ≡ log m.world
  unfolding open_socket6
  open_socket6-log m =
      let w = close_open sys m.v6.sock m.world in
      let (s, w') = sys.socket6 w in
      prepare-unseen sys log lawful.unseen s m.iface w'
      ∙ lawful.made6 w
      ∙ close_open-unseen sys log lawful.unseen m.v6.sock m.world
