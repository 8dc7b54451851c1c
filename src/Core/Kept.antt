-- ===== src/Core/Kept.antt =====
-- The rounds of connections keep the hash and the items in agreement
-- (`core_drive_machine` of IQ-Twemcached/src/mc_core.c).
use mathlib.Core.Path.{subst}
use mathlib.Core.Option.{some-injective}
use rejig.Prelude.{
  ℤ, pos, negsuc, ◌-◌, take, not, ◌&&◌, Bool, refl, ltb, ◌++◌, length, Bool-cases, ℕ, Option, none,
  some, List, [], ◌∷◌, ◌≡◌, Option-cases, inl, inr, none-some, ◌==◌, if◌then◌else◌,
}
use rejig.Items.Coherent
use rejig.Items.Coherent.{Coherent, Keep, pure-Keep}
use rejig.Items.Coherent.Linking.{item_remove-Keep}
use rejig.Items.Coherent.Reached.{Initial-Coherent}
use rejig.Ascii.Numbers.{Libc}
use rejig.Ascii.Server.{World, Response, Out, go, done}
use rejig.Ascii.Keeps.{Keeps}
use rejig.Ascii.Keeps.Updating.{Keeps-complete_nread}
use rejig.Ascii.Keeps.Dispatching.{Keeps-dispatch}
use rejig.Core.{Conn, ConnState, Got, Sent, Net}
use rejig.Core.Replied.{items_of, replied, handled}
use rejig.Core.Parse.{memchr, core_parse}
use rejig.Core.Drive.{
  nread_arm, swallow_arm, core_yield, has_null, take_leftovers, throw_away, remove_items,
  gives_back, core_reset_cmd_handler, core_read, read_item, core_nread, core_swallow,
  core_complete_nread, core_write, core_mwrite, core_close, arm, drive,
}
use rejig.Core.Server.{accept, Server, Event, advance, Serves, enter, leave, set_conn}

-- A round that has an outcome left the hash and the items in agreement.
abbrev Sound : Option Conn → Type 0
Sound none = Unit
Sound (some c) = Coherent c.world.cache

replied-cache : (r : Response) (w : World) (c : Conn) → (replied r w c).world.cache ≡ w.cache
unfolding replied
replied-cache (Response.hits its) w c = refl
replied-cache (Response.value a) w c = refl
replied-cache Response.novalue w c = refl
replied-cache (Response.lvalue a flags p token) w c = refl
replied-cache (Response.lvalue_short a flags token) w c = refl
replied-cache (Response.quarantined it pending token) w c = refl
replied-cache (Response.read_value it) w c = refl
replied-cache (Response.ok_novalue_pending pending token) w c = refl
replied-cache (Response.ok_val val) w c = refl
replied-cache Response.nread w c = refl
replied-cache Response.close w c = refl
replied-cache Response.muted w c = refl
replied-cache Response.silent w c = refl
replied-cache _ w c = refl

handled-cache : (r : Out (Unit {0})) (w : World) (c : Conn) → (handled r w c).world.cache ≡ w.cache
unfolding handled
handled-cache (go _) w c = refl
handled-cache (done r) w c = replied-cache r w c

-- What a program leaves, whatever is made of its answer.
program-Sound :
    {m : World → Option (Out (Unit {0}) × World)} (w : World) (c : Conn)
    → Keeps m
    → Coherent w.cache
    → Sound (elim (m w) [ none ↦ none | some (r, w') ↦ some (handled r w' c) ])
program-Sound {m} w c k h = elim (Option-cases (m w)) [
  | inl n ↦ rw n tt
  | inr ((r, w'), s) ↦ rw s (rw (handled-cache r w' c) (k.at w w' r h s))
]

remove_items-Keep : (its : List (Option ℕ)) → Keep (remove_items its)
unfolding remove_items
remove_items-Keep [] = pure-Keep tt
remove_items-Keep (none ∷ its) = remove_items-Keep its
remove_items-Keep (some a ∷ its) = Coherent.next (item_remove-Keep a) (remove_items-Keep its)

gives_back-Sound :
    (its : List (Option ℕ)) (c : Conn) → Coherent c.world.cache → Sound (gives_back its c)
unfolding gives_back
gives_back-Sound its c h = elim (Option-cases (remove_items its c.world.cache)) [
  | inl n ↦ rw (Sound, n) tt
  | inr ((x, d), s) ↦ rw (Sound, s) (((remove_items-Keep its).call c.world.cache h).good x d s)
]

core_reset_cmd_handler-Sound :
    (c : Conn) → Coherent c.world.cache → Sound (core_reset_cmd_handler c)
unfolding core_reset_cmd_handler
core_reset_cmd_handler-Sound c h = gives_back-Sound (items_of c.world.item) _ h

core_close-Sound : (c : Conn) → Coherent c.world.cache → Sound (core_close c)
unfolding core_close
core_close-Sound c h = elim (Bool-cases (has_null c.ilist)) [
  | inl t ↦ rw (Sound, t) tt
  | inr n ↦ rw (Sound, n) (gives_back-Sound (items_of c.world.item ++ c.ilist) _ h)
]

core_yield-Sound :
    (updated : Bool) (c : Conn)
    → Coherent c.world.cache
    → Coherent (core_yield updated c).world.cache
unfolding core_yield
core_yield-Sound updated c h = elim (Bool-cases (ltb 0 (length c.rbuf) && not updated)) [
  | inl t ↦ rw t h
  | inr n ↦ rw n h
]

core_mwrite-Sound : (sent : Sent) (c : Conn) → Coherent c.world.cache → Sound (core_mwrite sent c)
unfolding core_mwrite
core_mwrite-Sound Sent.complete c h = gives_back-Sound c.ilist _ h
core_mwrite-Sound Sent.incomplete c h = h
core_mwrite-Sound Sent.hard_error c h = h

core_write-Sound :
    (sent : Sent) (c : Conn) → Coherent c.world.cache → Coherent (core_write sent c).world.cache
unfolding core_write
core_write-Sound Sent.complete c h = h
core_write-Sound Sent.incomplete c h = h
core_write-Sound Sent.hard_error c h = h

module _ (got : Got) (c : Conn) (h : Coherent c.world.cache) where
  core_read-Sound : Coherent (core_read got c).world.cache
  unfolding core_read
  core_read-Sound = elim got as (λ g. Coherent (core_read g c).world.cache) [
    | Got.bytes more ↦ elim more as (λ m. Coherent (core_read (Got.bytes m) c).world.cache) [
      | [] ↦ h
      | b ∷ bs ↦ h
    ]
    | Got.broken ↦ h
  ]

  read_item-Sound : (left : ℕ) → Coherent (read_item got left c).world.cache
  unfolding read_item
  read_item-Sound left = elim got as (λ g. Coherent (read_item g left c).world.cache) [
    | Got.bytes more ↦ h
    | Got.broken ↦ h
  ]

  core_swallow-Sound : (left : ℕ) → Coherent (core_swallow got left c).world.cache
  unfolding core_swallow
  core_swallow-Sound left = elim (Bool-cases (left == 0)) [
    | inl t ↦ rw t h
    | inr n ↦ elim (Bool-cases (ltb 0 (length c.rbuf))) [
      | inl t ↦ rw (n, t) h
      | inr m ↦ rw (n, m) (empty got)
    ]
  ]
    where
      empty :
          (g : Got)
          → Coherent
              (elim g as (λ _. Conn) [
                | Got.bytes more ↦ throw_away left (length more) c
                | Got.broken ↦ record c { state = ConnState.close }
              ]).world.cache
      empty (Got.bytes more) = h
      empty Got.broken = h

core_nread-Sound :
    (got : Got) (left : ℕ) (c : Conn)
    → Coherent c.world.cache
    → Coherent (core_nread got left c).world.cache
unfolding core_nread
core_nread-Sound got left c h =
    let left' = left - length (take left c.rbuf) in
    elim (Bool-cases (left' == 0)) [
      | inl t ↦ rw t h
      | inr n ↦ rw n (read_item-Sound got (take_leftovers left c) h left')
    ]

module _ (libc : Libc) (net : Net) where
  core_parse-Sound : (c : Conn) → Coherent c.world.cache → Sound (core_parse libc c)
  unfolding core_parse
  core_parse-Sound c h = elim (Option-cases (memchr 10 c.rbuf)) [
    | inl n ↦ rw (Sound, n) h
    | inr (el, s) ↦ rw (Sound, s) (program-Sound _ _ (Keeps-dispatch libc _) h)
  ]

  nread_arm-Sound :
      (left : ℤ) (c : Conn) → Coherent c.world.cache → Sound (nread_arm libc net left c)
  unfolding nread_arm core_complete_nread
  nread_arm-Sound (pos left) c h = elim (Bool-cases (left == 0)) [
    | inl t ↦ rw t (program-Sound c.world c (Keeps-complete_nread c.line) h)
    | inr n ↦ rw n (core_nread-Sound net.got left c h)
  ]
  nread_arm-Sound (negsuc n) c h = tt

  swallow_arm-Sound :
      (left : ℤ) (c : Conn) → Coherent c.world.cache → Sound (swallow_arm libc net left c)
  unfolding swallow_arm
  swallow_arm-Sound (pos left) c h = core_swallow-Sound net.got c h left
  swallow_arm-Sound (negsuc n) c h = tt

  new_cmd-Sound :
      (c : Conn)
      → Coherent c.world.cache
      → Sound (if net.yields then some (core_yield net.updated c) else core_reset_cmd_handler c)
  new_cmd-Sound c h = elim (Bool-cases net.yields) [
    | inl t ↦ rw t (core_yield-Sound net.updated c h)
    | inr n ↦ rw n (core_reset_cmd_handler-Sound c h)
  ]

  arm-Sound : (state : ConnState) (c : Conn) → Coherent c.world.cache → Sound (arm libc net state c)
  unfolding arm
  arm-Sound ConnState.wait c h = h
  arm-Sound ConnState.read c h = core_read-Sound net.got c h
  arm-Sound ConnState.parse c h = core_parse-Sound c h
  arm-Sound ConnState.new_cmd c h = new_cmd-Sound c h
  arm-Sound ConnState.nread c h = nread_arm-Sound c.world.rlbytes c h
  arm-Sound ConnState.swallow c h = swallow_arm-Sound c.world.sbytes c h
  arm-Sound ConnState.write c h = core_write-Sound net.sent c h
  arm-Sound ConnState.mwrite c h = core_mwrite-Sound net.sent c h
  arm-Sound ConnState.close c h = core_close-Sound c h
  arm-Sound ConnState.closed c h = h

  drive-Sound : (c : Conn) → Coherent c.world.cache → Sound (drive libc net c)
  unfolding drive
  drive-Sound c h = arm-Sound c.state c h

advance-Coherent :
    (libc : Libc) (e : Event) (s t : Server)
    → Coherent s.cache
    → advance libc e s ≡ some t
    → Coherent t.cache
unfolding advance accept enter leave set_conn Coherent
advance-Coherent libc (Event.tick now) s t h e =
    subst (λ x. Coherent x.cache) (some-injective _ _ e) h
advance-Coherent libc (Event.accepted i) s t h e = accepted (s.conns i).state e
  where
    accepted : (state : ConnState) → accept i state s ≡ some t → Coherent t.cache
    accepted ConnState.closed q = subst (λ x. Coherent x.cache) (some-injective _ _ q) h
    accepted _ q = absurd (none-some t q)
advance-Coherent libc (Event.round i net) s t h e =
    elim (Option-cases (drive libc net (enter s (s.conns i)))) [
      | inl n ↦ absurd (none-some t (rw (advance, n) at e))
      | inr (c, r) ↦
          subst (λ x. Coherent x.cache) (some-injective (leave i c s) t (rw (advance, r) at e))
            (rw (Sound, r) at (drive-Sound libc net (enter s (s.conns i)) h))
    ]

-- In every server that comes of an empty cache, with any number of connections that take their
-- rounds in any order, whatever bytes they receive, whatever the functions of libc return and
-- whatever the slab allocator decides within the laws of a Decision, the hash agrees with the
-- items: an address that the hash has under a key is that of a linked item with that key, every
-- linked item is the one that the hash has under its key, and no linked item is on a free queue.
pub Serves-Coherent : (libc : Libc) (s : Server) → Serves libc s → Coherent s.cache
Serves-Coherent libc s (Serves.started i) = Initial-Coherent s.cache i
Serves-Coherent libc t (Serves.next {s = s} r e q) =
    advance-Coherent libc e s t (Serves-Coherent libc s r) q
