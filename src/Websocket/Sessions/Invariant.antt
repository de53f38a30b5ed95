-- ===== src/Websocket/Sessions/Invariant.antt =====
-- What holds of the users of websocket_9 between two steps of Kore.
use kore_io_websocket.Base.{
  ℕ, suc, ◌+◌, ◌-◌, ◌≡◌, ◌≢◌, refl, sym, subst, List, [], ◌∷◌, Option, none, some, length, ◌==◌,
  arith, Absent, Distinct, Absent-mem, Memᴰ, Bool-cases, inl, inr, ne→eqb,
}
use kore_io_websocket.Websocket.Rooms.{Connection, websocket}
use kore_io_websocket.Websocket.Sessions.{
  Ex, Server, Reply, update, websocket_connect, websocket_disconnect, clear_extra, without, ptr_of,
  extra_of, Step, accepts, closes, start, Reach, starts, next,
}

-- Every connection is a websocket and has its `ex` in allocated memory.
abbrev pub Held : (ℕ → Option Ex) → List Connection → Type 0
Held x [] = Unit
Held x (c ∷ cs) = ((e : Ex) × (x c.hdlr_extra ≡ some e)) × (c.proto ≡ websocket) × Held x cs

pub record Inv (s : Server) : Type 0 where
  pub counted : length s.connections ≡ s.ab
  pub addresses : Distinct ptr_of s.connections
  pub extras : Distinct extra_of s.connections
  pub held : Held s.extra s.connections

Held-update :
    (x : ℕ → Option Ex) (l : ℕ) (v : Option Ex) (cs : List Connection)
    → Absent extra_of l cs
    → Held x cs
    → Held (update x l v) cs
Held-update x l v [] a h = tt
Held-update x l v (c ∷ cs) a h =
    ((h.0.0, ground (arith, h.0.1, a.0)), h.1, Held-update x l v cs a.1 h.2)

pub Held-mem :
    (x : ℕ → Option Ex) (c : Connection) (cs : List Connection)
    → Held x cs
    → Memᴰ c cs
    → (e : Ex) × (x c.hdlr_extra ≡ some e)
Held-mem x c [] h m = elim m [ ]
Held-mem x c (d ∷ cs) h (Memᴰ.head e) = rw e h.0
Held-mem x c (d ∷ cs) h (Memᴰ.tail m) = Held-mem x c cs h.2 m

pub without-clear_extra :
    (p : ℕ) (cs : List Connection) → without p (clear_extra p cs) ≡ without p cs
without-clear_extra p [] = refl
without-clear_extra p (c ∷ cs) = ground (arith, without-clear_extra p cs)

length-without :
    (c : Connection) (cs : List Connection)
    → Memᴰ c cs
    → suc (length (without c.ptr cs)) ≡ length cs
length-without c [] m = elim m [ ]
length-without c (d ∷ cs) (Memᴰ.head e) = rw e (ground arith)
length-without c (d ∷ cs) (Memᴰ.tail m) = ground (arith, length-without c cs m)

Absent-without :
    (key : Connection → ℕ) (k p : ℕ) (cs : List Connection)
    → Absent key k cs
    → Absent key k (without p cs)
Absent-without key k p [] a = tt
Absent-without key k p (c ∷ cs) a = ground (arith, a.0, a.1, Absent-without key k p cs a.1)

Distinct-without :
    (key : Connection → ℕ) (p : ℕ) (cs : List Connection)
    → Distinct key cs
    → Distinct key (without p cs)
Distinct-without key p [] a = tt
Distinct-without key p (c ∷ cs) a =
    ground (arith, a.0, a.1, Distinct-without key p cs a.1, Absent-without key (key c) p cs a.0)

Held-without :
    (x : ℕ → Option Ex) (p : ℕ) (cs : List Connection) → Held x cs → Held x (without p cs)
Held-without x p [] a = tt
Held-without x p (c ∷ cs) a = elim (Bool-cases (c.ptr == p)) [
  | inl hit ↦ rw hit a.2
  | inr miss ↦ rw miss (a.0, a.1, Held-without x p cs a.2)
]

-- The address that a closed connection leaves is nobody else's.
Absent-without_self :
    (c : Connection) (cs : List Connection)
    → Distinct ptr_of cs
    → Distinct extra_of cs
    → Memᴰ c cs
    → Absent extra_of c.hdlr_extra (without c.ptr cs)
Absent-without_self c [] p x m = elim m [ ]
Absent-without_self c (d ∷ cs) p x (Memᴰ.head e) = rw e (ground (arith, x.0))
Absent-without_self c (d ∷ cs) p x (Memᴰ.tail m) =
    let apart : d.ptr ≢ c.ptr = λ e. Absent-mem ptr_of cs p.0 m e in
    let apart' : d.hdlr_extra ≢ c.hdlr_extra = λ e. Absent-mem extra_of cs x.0 m e in
    let rest = Absent-without_self c cs p.1 x.1 m in
    rw (ne→eqb d.ptr c.ptr apart) (λ e. apart' (sym e), rest)

start-Inv : Inv start
start-Inv = record { counted = refl; addresses = tt; extras = tt; held = tt }

-- The states that the two handlers leave, when they run to their end.
abbrev pub connected : Server → ℕ → ℕ → Server
connected s c l = record {
  ab = s.ab + 1;
  connections = record { ptr = c; proto = websocket; hdlr_extra = l } ∷ s.connections;
  extra = update s.extra l (some (record { id = s.ab + 1; b = 46 }));
}

abbrev pub closed : Server → Connection → Server
closed s c = record {
  ab = s.ab - 1;
  connections = without c.ptr s.connections;
  extra = update s.extra c.hdlr_extra none;
}

pub connect-connected :
    (s t : Server) (c l : ℕ) (r : Reply)
    → websocket_connect s c l ≡ some (t, r)
    → t ≡ connected s c l
unfolding websocket_connect
connect-connected s t c l r h = ground arith

pub closes-closed :
    (s t s' : Server) (c : Connection)
    → websocket_disconnect s c ≡ some s'
    → t ≡ record s' { connections = without c.ptr s'.connections }
    → t ≡ closed s c
unfolding websocket_disconnect
closes-closed s t s' c h e = ground (arith, without-clear_extra c.ptr s.connections)

connected-Inv :
    (s : Server) (c l : ℕ)
    → Absent ptr_of c s.connections
    → Absent extra_of l s.connections
    → Inv s
    → Inv (connected s c l)
connected-Inv s c l a b v = record {
  counted = omega (arith, v.counted);
  addresses = (a, v.addresses);
  extras = (b, v.extras);
  held = (
    (record { id = s.ab + 1; b = 46 }, ground arith),
    refl,
    Held-update s.extra l _ s.connections b v.held,
  );
}

closed-Inv : (s : Server) (c : Connection) → Memᴰ c s.connections → Inv s → Inv (closed s c)
closed-Inv s c m v = record {
  counted = omega (arith, v.counted, length-without c s.connections m);
  addresses = Distinct-without ptr_of c.ptr s.connections v.addresses;
  extras = Distinct-without extra_of c.ptr s.connections v.extras;
  held =
      Held-update s.extra c.hdlr_extra none _
        (Absent-without_self c s.connections v.addresses v.extras m)
        (Held-without s.extra c.ptr s.connections v.held);
}

-- Every step of Kore keeps the invariant: `ab` counts the live connections, whose addresses and
-- memory are distinct and allocated.
pub Step-Inv : {s t : Server} → Step s t → Inv s → Inv t
Step-Inv {s} {t} (accepts c l r a b h) v =
    subst Inv (sym (connect-connected s t c l r h)) (connected-Inv s c l a b v)
Step-Inv {s} {t} (closes c s' m h e) v =
    subst Inv (sym (closes-closed s t s' c h e)) (closed-Inv s c m v)

pub Reach-Inv : {s : Server} → Reach s → Inv s
Reach-Inv starts = start-Inv
Reach-Inv (next r st) = Step-Inv st (Reach-Inv r)
