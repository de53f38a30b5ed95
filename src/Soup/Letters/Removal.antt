-- ===== src/Soup/Letters/Removal.antt =====
-- A letter of mediasoup/src/channel.c that is taken away with its timer, and one that is put in front.
use kore_io_websocket.Base.{
  ℕ, ◌≡◌, ◌≢◌, sym, ap, ◌∙◌, List, [], ◌∷◌, true, Option, some, ◌==◌, arith, Absent, Distinct,
  Absent-mem, Memᴰ, ne→eqb,
}
use kore_io_websocket.Soup.World.{Soup, Postman, Timer, disarm}
use kore_io_websocket.Soup.Channel.{unlink}
use kore_io_websocket.Soup.Letters.{place, owner, handle_of, AllWait, Paired, letter-timer}

Absent-unlink :
    (key : Postman → ℕ) (k a : ℕ) (ls : List Postman) → Absent key k ls → Absent key k (unlink a ls)
unfolding unlink
Absent-unlink key k a [] n = tt
Absent-unlink key k a (l ∷ ls) n = ground (arith, n.0, n.1, Absent-unlink key k a ls n.1)

pub Distinct-unlink :
    (key : Postman → ℕ) (a : ℕ) (ls : List Postman) → Distinct key ls → Distinct key (unlink a ls)
unfolding unlink
Distinct-unlink key a [] n = tt
Distinct-unlink key a (l ∷ ls) n =
    ground (arith, n.0, n.1, Distinct-unlink key a ls n.1, Absent-unlink key (key l) a ls n.0)

Absent-disarm :
    (k a : ℕ) (ts : List Timer) → Absent handle_of k ts → Absent handle_of k (disarm a ts)
unfolding disarm
Absent-disarm k a [] n = tt
Absent-disarm k a (t ∷ ts) n = ground (arith, n.0, n.1, Absent-disarm k a ts n.1)

pub Distinct-disarm :
    (a : ℕ) (ts : List Timer) → Distinct handle_of ts → Distinct handle_of (disarm a ts)
unfolding disarm
Distinct-disarm a [] n = tt
Distinct-disarm a (t ∷ ts) n =
    ground (arith, n.0, n.1, Distinct-disarm a ts n.1, Absent-disarm t.handle a ts n.0)

pub Paired-remove :
    (ls : List Postman) (ts : List Timer) (du : Postman) (h : ℕ)
    → Paired ls ts
    → Distinct place ls
    → Distinct handle_of ts
    → Memᴰ du ls
    → du.timer ≡ some h
    → Paired (unlink du.at ls) (disarm h ts)
unfolding unlink disarm
Paired-remove [] ts du h p n o m e = elim m [ ]
Paired-remove (l ∷ ls) [] du h p n o m e = elim p [ ]
Paired-remove (l ∷ ls) (t ∷ ts) du h p n o (Memᴰ.head f) e = rw f (ground (arith, p, rw f at e))
Paired-remove (l ∷ ls) (t ∷ ts) du h p n o (Memᴰ.tail m) e =
    let (u, k, a) = letter-timer ls ts du p.1 m in
    let apart = Absent-mem place ls n.0 m in
    let other = Absent-mem handle_of ts o.0 k in
    ground (arith, p.0, Paired-remove ls ts du h p.1 n.1 o.1 m e)

-- The letters of other clients wait on if only one client has changed.
pub AllWait-others :
    (f g : ℕ → Option Soup) (p : ℕ) (ls : List Postman)
    → ((q : ℕ) → q ≢ p → g q ≡ f q)
    → Absent owner p ls
    → AllWait f ls
    → AllWait g ls
AllWait-others f g p [] same a w = tt
AllWait-others f g p (l ∷ ls) same a w =
    let (s, e, i, c, z) = w.0 in
    ((s, same l.soupi (λ q. a.0 (sym q)) ∙ e, i, c, z), AllWait-others f g p ls same a.1 w.1)

pub AllWait-remove :
    (f g : ℕ → Option Soup) (du : Postman) (ls : List Postman)
    → ((q : ℕ) → q ≢ du.soupi → g q ≡ f q)
    → Distinct place ls
    → Distinct owner ls
    → Memᴰ du ls
    → AllWait f ls
    → AllWait g (unlink du.at ls)
unfolding unlink
AllWait-remove f g du [] same n o m w = elim m [ ]
AllWait-remove f g du (l ∷ ls) same n o (Memᴰ.head e) w =
    let hit : (l.at == du.at) ≡ true = ground (arith, e) in
    rw hit (AllWait-others f g du.soupi ls same (rw (ap owner e) o.0) w.1)
AllWait-remove f g du (l ∷ ls) same n o (Memᴰ.tail m) w =
    let (s, alive, i, c, z) = w.0 in
    rw (ne→eqb l.at du.at (Absent-mem place ls n.0 m)) (
      (s, same l.soupi (Absent-mem owner ls o.0 m) ∙ alive, i, c, z),
      AllWait-remove f g du ls same n.1 o.1 m w.1,
    )
