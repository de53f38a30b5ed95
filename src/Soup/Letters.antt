-- ===== src/Soup/Letters.antt =====
-- The order that the letters of mediasoup/src/channel.c, their timers and their clients are in, and
-- what taking a letter away does to it.
pub mod Arrivals
pub mod Removal
pub mod System
use kore_io_websocket.Base.{
  ℕ, ◌≡◌, ◌≢◌, refl, sym, ap, ◌∙◌, List, [], ◌∷◌, Bool, true, false, Option, none, some, ◌==◌,
  if◌then◌else◌, arith, inl, inr, Bool-cases, Absent, Distinct, Absent-mem, Memᴰ, ne→eqb, ==_iff,
}
use kore_io_websocket.Soup.World.{we_can_work_it_out, Soup, Postman, Timer, disarm}
use kore_io_websocket.Soup.Channel.{unlink}
use kore_io_websocket.Soup.Requests.{find_letter}

abbrev pub place : Postman → ℕ
place l = l.at

abbrev pub number : Postman → ℕ
number l = l.id

abbrev pub owner : Postman → ℕ
owner l = l.soupi

abbrev pub handle_of : Timer → ℕ
handle_of t = t.handle

-- The client of a letter is alive, bound to the callback and waits under the letter's id.
abbrev pub Waits : (ℕ → Option Soup) → Postman → Type 0
Waits f l =
    (s : Soup) × (f l.soupi ≡ some s)
    × (s.id ≡ l.id)
    × (s.cb ≡ some we_can_work_it_out)
    × (l.soupi ≢ 0)

abbrev pub AllWait : (ℕ → Option Soup) → List Postman → Type 0
AllWait f [] = Unit
AllWait f (l ∷ ls) = Waits f l × AllWait f ls

-- Letters and timers are in one order: each letter has the timer at its place, which is armed with
-- its client.
abbrev pub Paired : List Postman → List Timer → Type 0
Paired [] [] = Unit
Paired [] (t ∷ ts) = ⊥
Paired (l ∷ ls) [] = ⊥
Paired (l ∷ ls) (t ∷ ts) = ((l.timer ≡ some t.handle) × (t.arg ≡ l.soupi)) × Paired ls ts

pub AllWait-mem :
    (f : ℕ → Option Soup) (du : Postman) (ls : List Postman)
    → AllWait f ls
    → Memᴰ du ls
    → Waits f du
AllWait-mem f du [] a m = elim m [ ]
AllWait-mem f du (l ∷ ls) a (Memᴰ.head e) = rw e a.0
AllWait-mem f du (l ∷ ls) a (Memᴰ.tail m) = AllWait-mem f du ls a.1 m

pub find_letter-mem :
    (id : ℕ) (ls : List Postman) (du : Postman)
    → find_letter id ls ≡ some du
    → Memᴰ du ls × (du.id ≡ id)
find_letter-mem id [] du e = ground arith
find_letter-mem id (l ∷ ls) du e = elim (Bool-cases (l.id == id)) [
  | inl hit ↦
      let same : du ≡ l = ground arith in (Memᴰ.head same, ground (arith, (==_iff l.id id).0 hit))
  | inr miss ↦ let found = find_letter-mem id ls du (ground arith) in (Memᴰ.tail found.0, found.1)
]

pub find_letter-of_mem :
    (ls : List Postman) (du : Postman)
    → Distinct number ls
    → Memᴰ du ls
    → find_letter du.id ls ≡ some du
find_letter-of_mem [] du n m = elim m [ ]
find_letter-of_mem (l ∷ ls) du n (Memᴰ.head e) = rw e (ground arith)
find_letter-of_mem (l ∷ ls) du n (Memᴰ.tail m) =
    ground (arith, find_letter-of_mem ls du n.1 m, Absent-mem number ls n.0 m)

pub timer-letter :
    (ls : List Postman) (ts : List Timer) (t : Timer)
    → Paired ls ts
    → Memᴰ t ts
    → (du : Postman) × Memᴰ du ls × (du.timer ≡ some t.handle) × (t.arg ≡ du.soupi)
timer-letter ls [] t p m = elim m [ ]
timer-letter [] (u ∷ ts) t p m = elim p [ ]
timer-letter (l ∷ ls) (u ∷ ts) t p (Memᴰ.head e) =
    (l, Memᴰ.head refl, ground (arith, e, p.0), ground (arith, e, p.0))
timer-letter (l ∷ ls) (u ∷ ts) t p (Memᴰ.tail m) =
    let (du, k, a, b) = timer-letter ls ts t p.1 m in (du, Memᴰ.tail k, a, b)

pub letter-timer :
    (ls : List Postman) (ts : List Timer) (du : Postman)
    → Paired ls ts
    → Memᴰ du ls
    → (t : Timer) × Memᴰ t ts × (du.timer ≡ some t.handle)
letter-timer [] ts du p m = elim m [ ]
letter-timer (l ∷ ls) [] du p m = elim p [ ]
letter-timer (l ∷ ls) (u ∷ ts) du p (Memᴰ.head e) = (u, Memᴰ.head refl, ground (arith, e, p.0))
letter-timer (l ∷ ls) (u ∷ ts) du p (Memᴰ.tail m) =
    let (t, k, a) = letter-timer ls ts du p.1 m in (t, Memᴰ.tail k, a)
