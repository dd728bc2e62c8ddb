-- ===== src/Routes/Events/Laws.antt =====
-- What the browsers on the streams of routes/events.ts hold of the table.
use circleftp_jellyfin.Base.{
  ℕ, ◌≤◌, ◌≡◌, refl, sym, ap, subst, ◌∙◌, List, [], ◌∷◌, ◌++◌, some, none, Bool, true, false, map,
  if◌then◌else◌, ◌==◌, ==_refl, All, All-append, length, arith, Bool-cases, inl, inr,
}
use circleftp_jellyfin.Downloads.Model.{Download, Downloads, find_download}
use circleftp_jellyfin.Downloads.Service.{Event, snapshot, created}
use circleftp_jellyfin.Downloads.Service.Announced.{seen}
use circleftp_jellyfin.Downloads.Service.Requests.{IdsDiffer}
use circleftp_jellyfin.Web.Live.{apply_event, apply_events}
use circleftp_jellyfin.Web.Live.Mirror.{Agree, apply_event-seen, apply_events-append}
use circleftp_jellyfin.Web.Live.Stream.{list_downloads-Agree}
use circleftp_jellyfin.Routes.Events.{
  Stage, listing, listed, subscribed, unsubscribed, Connection, Hub, Action, open_stream, read,
  resume, close, publish, is_subscribed, send, receive, read_stage, read_table, go_on_at, go_on,
  hang_up, at_id, act, act_all, listener_count,
}

abbrev is_listed : Stage → Bool
is_listed (listed ds) = true
is_listed _ = false

-- What a browser holds at each stage of its stream.
abbrev Holds : Downloads → Stage → List Event → Type 0
Holds table listing sent = sent ≡ []
Holds table (listed ds) sent = (sent ≡ []) × Agree ds table
Holds table subscribed sent = Agree (apply_events [] sent) table
Holds table unsubscribed sent = Unit

-- An open stream is in step with the table.
abbrev pub InStep : Downloads → Connection → Type 0
InStep table c = c.is_gone ≡ false → Holds table c.stage c.sent

-- An event tells the change of the table that it follows.
abbrev pub Tells : Event → Downloads → Downloads → Type 0
Tells e before after = (id : ℕ) → find_download id after ≡ seen e id (find_download id before)

-- Every event tells its change, none is published while a handler stands between the query of its list
-- and the subscription, and the lists are not cut off.
abbrev pub IsSmooth : Action → Hub → Type 0
IsSmooth (open_stream id) h = Unit
IsSmooth (read id) h = IdsDiffer h.table × (length h.table ≤ 50)
IsSmooth (resume id) h = Unit
IsSmooth (close id) h = Unit
IsSmooth (publish e table) h =
    Tells e h.table table × All (λ c. is_listed c.stage ≡ false) h.connections

abbrev pub AllSmooth : List Action → Hub → Type 0
AllSmooth [] h = Unit
AllSmooth (a ∷ rest) h = IsSmooth a h × AllSmooth rest (act a h)

module _ (P Q R : Connection → Type 0) (f : Connection → Connection)
    (keep : (c : Connection) → P c → R c → Q (f c)) where
  map-All : (cs : List Connection) → All P cs → All R cs → All Q (map f cs)
  map-All [] p r = tt
  map-All (c ∷ cs) (p, ps) (r, rs) = (keep c p r, map-All cs ps rs)

read-Holds :
    (table : Downloads) (stage : Stage) (sent : List Event)
    → IdsDiffer table
    → length table ≤ 50
    → Holds table stage sent
    → Holds table (read_stage table stage) sent
read-Holds table listing sent u l k = (k, list_downloads-Agree 50 table u l)
read-Holds table (listed ds) sent u l k = k
read-Holds table subscribed sent u l k = k
read-Holds table unsubscribed sent u l k = k

go_on-InStep :
    (table : Downloads) (stage : Stage) (c : Connection)
    → c.stage ≡ stage
    → (c.is_gone ≡ false → Holds table stage c.sent)
    → InStep table (go_on_at stage c)
unfolding go_on_at send apply_events apply_event
go_on-InStep table listing c e k g = subst (λ s. Holds table s c.sent) (sym e) (k g)
go_on-InStep table (listed ds) c e k g = rw (g, (k g).0) (k g).1
go_on-InStep table subscribed c e k g = subst (λ s. Holds table s c.sent) (sym e) (k g)
go_on-InStep table unsubscribed c e k g = subst (λ s. Holds table s c.sent) (sym e) (k g)

receive-InStep :
    (event : Event) (before after : Downloads) (stage : Stage) (c : Connection)
    → Tells event before after
    → c.stage ≡ stage
    → is_listed stage ≡ false
    → (c.is_gone ≡ false → Holds before stage c.sent)
    → InStep after (if is_subscribed stage then send event c else c)
unfolding send
receive-InStep event before after listing c t e n k g =
    subst (λ s. Holds after s c.sent) (sym e) (k g)
receive-InStep event before after (listed ds) c t e n k g = absurd (cc)
receive-InStep event before after subscribed c t e n k g =
    subst (λ s. Holds after s (if c.is_gone then c.sent else c.sent ++ event ∷ [])) (sym e)
      (rw g (λ id.
        ap (find_download id) (apply_events-append [] c.sent event)
        ∙ apply_event-seen event id (apply_events [] c.sent)
        ∙ ap (seen event id) (k g id)
        ∙ sym (t id)))
receive-InStep event before after unsubscribed c t e n k g =
    subst (λ s. Holds after s c.sent) (sym e) tt

at_id-All :
    (P : Connection → Type 0) (id : ℕ) (f : Connection → Connection)
    → ((c : Connection) → P c → P (f c))
    → (cs : List Connection) → All P cs
    → All P (at_id id f cs)
at_id-All P id f keep [] h = tt
at_id-All P id f keep (c ∷ cs) (p, h) = elim (Bool-cases (c.id == id)) [
  | inl e ↦ rw e (keep c p, at_id-All P id f keep cs h)
  | inr e ↦ rw e (p, at_id-All P id f keep cs h)
]

abbrev pub AllInStep : Hub → Type 0
AllInStep h = All (InStep h.table) h.connections

act-AllInStep : (a : Action) (h : Hub) → IsSmooth a h → AllInStep h → AllInStep (act a h)
unfolding act read_table go_on hang_up receive
act-AllInStep (open_stream id) h s k =
    All-append (InStep h.table) h.connections _ k ((λ g. refl), tt)
act-AllInStep (read id) h (u, l) k =
    at_id-All (InStep h.table) id (read_table h.table)
      (λ c p g. read-Holds h.table c.stage c.sent u l (p g)) h.connections k
act-AllInStep (resume id) h s k =
    at_id-All (InStep h.table) id go_on (λ c p. go_on-InStep h.table c.stage c refl p) h.connections
      k
act-AllInStep (close id) h s k =
    at_id-All (InStep h.table) id hang_up (λ c p g. absurd (cc)) h.connections k
act-AllInStep (publish e table) h (t, n) k =
    map-All (InStep h.table) (InStep table) (λ c. is_listed c.stage ≡ false) (receive e)
      (λ c p q. receive-InStep e h.table table c.stage c t refl q p) h.connections k n

-- Whatever streams are opened and closed and whatever is published, in whatever order, as long as
-- every event tells its change, none is published while a handler stands between the query of its
-- list and the subscription, and at most fifty downloads are listed: the list that each browser on an
-- open stream folds from its events agrees with the table.
pub act_all-AllInStep :
    (actions : List Action) (h : Hub)
    → AllSmooth actions h
    → AllInStep h
    → AllInStep (act_all actions h)
unfolding act_all
act_all-AllInStep [] h s k = k
act_all-AllInStep (a ∷ rest) h (p, s) k = act_all-AllInStep rest (act a h) s (act-AllInStep a h p k)

-- A handler that stands between the query of its list and the subscription lets an event pass, and
-- begins its stream with the old list.
missed_event :
    (before after ds : Downloads) (c : Connection) (e : Event)
    → c.stage ≡ listed ds
    → c.is_gone ≡ false
    → c.sent ≡ []
    → act_all (publish e after ∷ resume c.id ∷ []) (record { table = before; connections = c ∷ [] })
      ≡ record {
        table = after;
        connections = record c { stage = subscribed; sent = snapshot ds ∷ [] } ∷ [];
      }
unfolding act_all act receive go_on go_on_at send
missed_event before after ds c e s g n = rw (s, ==_refl c.id, g, n) refl

-- A download that is created while a handler stands between the query of its list and the subscription
-- is missing from the list of that browser when its stream has begun, though it is in the table.
pub act_all-missed :
    (before after ds : Downloads) (c : Connection) (d : Download)
    → c.stage ≡ listed ds
    → c.is_gone ≡ false
    → c.sent ≡ []
    → find_download d.id ds ≡ none
    → find_download d.id after ≡ some d
    → ¬ AllInStep (
        act_all
          (publish (created d) after ∷ resume c.id ∷ [])
          (record { table = before; connections = c ∷ [] }))
unfolding apply_events apply_event
act_all-missed before after ds c d e g n absent there k =
    let (held, _) = subst AllInStep (missed_event before after ds c (created d) e g n) k in
    let same : find_download d.id ds ≡ find_download d.id after = held g d.id in cc

-- A stream whose browser has gone without being noticed.
abbrev IsLeaked : Connection → Type 0
IsLeaked c = (c.is_gone ≡ true) × (c.stage ≡ subscribed)

abbrev HeadIsLeaked : List Connection → Type 0
HeadIsLeaked [] = ⊥
HeadIsLeaked (c ∷ cs) = IsLeaked c

leaked-count :
    (t : Downloads) (cs : List Connection)
    → HeadIsLeaked cs
    → 1 ≤ listener_count (record { table = t; connections = cs })
unfolding listener_count
leaked-count t [] h = elim h [ ]
leaked-count t (c ∷ cs) (g, e) = rw e (omega arith)

at_id-HeadIsLeaked :
    (id : ℕ) (f : Connection → Connection)
    → ((c : Connection) → IsLeaked c → IsLeaked (f c))
    → (cs : List Connection) → HeadIsLeaked cs
    → HeadIsLeaked (at_id id f cs)
at_id-HeadIsLeaked id f keep [] h = elim h [ ]
at_id-HeadIsLeaked id f keep (c ∷ cs) h = elim (Bool-cases (c.id == id)) [
  | inl e ↦ rw e (keep c h)
  | inr e ↦ rw e h
]

act-HeadIsLeaked :
    (a : Action) (t : Downloads) (cs : List Connection)
    → HeadIsLeaked cs
    → HeadIsLeaked (act a (record { table = t; connections = cs })).connections
unfolding act read_table go_on go_on_at hang_up receive send
act-HeadIsLeaked (open_stream id) t [] h = elim h [ ]
act-HeadIsLeaked (open_stream id) t (c ∷ cs) h = h
act-HeadIsLeaked (read id) t cs h =
    at_id-HeadIsLeaked id (read_table t) (λ c k. (k.0, rw k.1 refl)) cs h
act-HeadIsLeaked (resume id) t cs h =
    at_id-HeadIsLeaked id go_on (λ c k. rw (go_on, k.1) (k.0, refl)) cs h
act-HeadIsLeaked (close id) t cs h =
    at_id-HeadIsLeaked id hang_up (λ c k. (refl, rw (k.0, k.1) refl)) cs h
act-HeadIsLeaked (publish e t') t [] h = elim h [ ]
act-HeadIsLeaked (publish e t') t (c ∷ cs) h = rw (h.1) (h.0, refl)

act_all-HeadIsLeaked :
    (actions : List Action) (h : Hub)
    → HeadIsLeaked h.connections
    → HeadIsLeaked (act_all actions h).connections
unfolding act_all
act_all-HeadIsLeaked [] h k = k
act_all-HeadIsLeaked (a ∷ rest) h k =
    act_all-HeadIsLeaked rest (act a h) (act-HeadIsLeaked a h.table h.connections k)

-- A stream that its browser closes between the query of the list and the subscription becomes a
-- listener all the same, and some listener is left whatever happens afterwards.
pub act_all-leak :
    (table ds : Downloads) (c : Connection) (rest : List Action)
    → c.stage ≡ listed ds
    → c.is_gone ≡ false
    → 1
      ≤ listener_count (
          act_all
            (close c.id ∷ resume c.id ∷ rest)
            (record { table = table; connections = c ∷ [] }))
unfolding act_all
act_all-leak table ds c rest e g =
    let h = act (close c.id) (record { table = table; connections = c ∷ [] }) in
    let after = act_all rest (act (resume c.id) h) in
    leaked-count after.table after.connections (
      act_all-HeadIsLeaked rest (act (resume c.id) h)
        (unfold act hang_up go_on go_on_at in rw (e, ==_refl c.id, g, ==_refl c.id) (refl, refl)))
