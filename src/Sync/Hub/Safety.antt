-- ===== src/Sync/Hub/Safety.antt =====
-- No interleaving of the hub's calls panics.
use mathlib.Core.Path.{subst}
use zt_data_sync.Prelude.Membership.{contains, contains-filter, contains-append}
use zt_data_sync.Sync.Hub.{
  subscribe, Outcome, cancel, receive, new_hub, Subscription, Hub, runs, send, run, notify_all,
  panics, step, chans_of, close_detached, detach, Action, notify, subscribes, cancels, detaches,
  closes, receives, notifies,
}
use mathlib.Core.Bool.{false≢true}
use zt_data_sync.Prelude.{
  ℕ, [], false, inl, inr, suc, refl, ◌==◌, ◌&&◌, ◌≡◌, ◌≢◌, ◌<◌, ◌∷◌, List, arith, Bool, All-filter,
  All, filter, not, Bool-cases, true, ◌++◌, ◌∙◌, sym, ==_iff, All-append,
}

-- A channel that may be sent on and closed: given out, and not closed.
record Live (next : ℕ) (closed : List ℕ) (c : ℕ) : Type 0 where
  old : c < next
  is_open : contains c closed ≡ false

-- A subscribed channel is live, and not on its way to be closed.
record Subscribed (next : ℕ) (closed detached : List ℕ) (s : Subscription) : Type 0 where
  live : Live next closed s.chan
  attached : contains s.chan detached ≡ false

abbrev DistinctChans : List Subscription → Type 0
DistinctChans [] = Unit {0}
DistinctChans (s ∷ ss) = All (λ y. s.chan ≢ y.chan) ss × DistinctChans ss

record Inv (h : Hub) : Type 0 where
  subscribed : All (Subscribed h.next_chan h.closed h.detached) h.by_user
  distinct : DistinctChans h.by_user
  detached_live : All (Live h.next_chan h.closed) h.detached
  closed_old : All (λ c. c < h.next_chan) h.closed

-- The call went through, and kept the invariant.
abbrev Fine : Outcome → Type 0
Fine (runs h) = Inv h
Fine panics = ⊥

new_hub-Inv : Inv new_hub
unfolding new_hub
new_hub-Inv = record { subscribed = tt; distinct = tt; detached_live = tt; closed_old = tt }

fresh : (n : ℕ) (cs : List ℕ) → All (λ c. c < n) cs → contains n cs ≡ false
fresh n [] a = refl
fresh n (c ∷ cs) a = ground (arith, a.0, fresh n cs a.1)

All-map_prop :
    {A : Type 0} (P Q : A → Type 0) (xs : List A) → ((a : A) → P a → Q a) → All P xs → All Q xs
All-map_prop P Q [] f a = tt
All-map_prop P Q (x ∷ xs) f a = (f x a.0, All-map_prop P Q xs f a.1)

subscribe-Inv : (h : Hub) (user : ℕ) → Inv h → Inv (subscribe h user)
unfolding subscribe
subscribe-Inv h user v = record {
  subscribed = (
    record {
      live = record { old = omega arith; is_open = fresh h.next_chan h.closed v.closed_old };
      attached = fresh h.next_chan h.detached (
          All-map_prop (Live h.next_chan h.closed) (λ c. c < h.next_chan) h.detached (λ c l. l.old)
            v.detached_live);
    },
    All-map_prop (Subscribed h.next_chan h.closed h.detached)
        (Subscribed (suc h.next_chan) h.closed h.detached) h.by_user
        (λ s l. record {
          live = record { old = omega (arith, l.live.old); is_open = l.live.is_open };
          attached = l.attached;
        })
        v.subscribed,
  );
  distinct = (
    All-map_prop (Subscribed h.next_chan h.closed h.detached) (λ y. h.next_chan ≢ y.chan) h.by_user
        (λ s l. omega (arith, l.live.old)) v.subscribed,
    v.distinct,
  );
  detached_live =
      All-map_prop (Live h.next_chan h.closed) (Live (suc h.next_chan) h.closed) h.detached
        (λ c l. record { old = omega (arith, l.old); is_open = l.is_open }) v.detached_live;
  closed_old =
      All-map_prop (λ c. c < h.next_chan) (λ c. c < suc h.next_chan) h.closed
        (λ c l. omega (arith, l)) v.closed_old;
}

DistinctChans-filter :
    (p : Subscription → Bool) (ss : List Subscription)
    → DistinctChans ss
    → DistinctChans (filter p ss)
DistinctChans-filter p [] d = tt
DistinctChans-filter p (s ∷ ss) d =
    ground (arith, All-filter (λ y. s.chan ≢ y.chan) p ss d.0, DistinctChans-filter p ss d.1)

cancel-Inv : (h : Hub) (user chan : ℕ) → Inv h → Inv (cancel h user chan)
unfolding cancel
cancel-Inv h user chan v = record {
  subscribed =
      All-filter (Subscribed h.next_chan h.closed h.detached)
        (λ s. not ((s.user == user) && (s.chan == chan))) h.by_user v.subscribed;
  distinct =
      DistinctChans-filter (λ s. not ((s.user == user) && (s.chan == chan))) h.by_user v.distinct;
  detached_live = v.detached_live;
  closed_old = v.closed_old;
}

receive-Inv : (h : Hub) (chan : ℕ) → Inv h → Inv (receive h chan)
unfolding receive
receive-Inv h chan v = record {
  subscribed = v.subscribed;
  distinct = v.distinct;
  detached_live = v.detached_live;
  closed_old = v.closed_old;
}

send-Fine : (chan : ℕ) (h : Hub) → contains chan h.closed ≡ false → Inv h → Fine (send chan h)
send-Fine chan h o v = elim (Bool-cases (contains chan h.full)) [
  | inl f ↦ rw (o, f) v
  | inr f ↦
      rw (o, f)
        (record {
          subscribed = v.subscribed;
          distinct = v.distinct;
          detached_live = v.detached_live;
          closed_old = v.closed_old;
        })
]

notify_all-Fine :
    (ss : List Subscription) (h : Hub)
    → All (λ s. contains s.chan h.closed ≡ false) ss
    → Inv h
    → Fine (notify_all ss h)
unfolding notify_all
notify_all-Fine [] h a v = v
notify_all-Fine (s ∷ ss) h a v = elim (Bool-cases (contains s.chan h.full)) [
  | inl f ↦ rw (a.0, f, notify_all) (notify_all-Fine ss h a.1 v)
  | inr f ↦
      rw (a.0, f, notify_all)
        (notify_all-Fine ss (record h { full = s.chan ∷ h.full }) a.1
          (record {
            subscribed = v.subscribed;
            distinct = v.distinct;
            detached_live = v.detached_live;
            closed_old = v.closed_old;
          }))
]

not_among :
    (c user : ℕ) (ss : List Subscription)
    → All (λ y. c ≢ y.chan) ss
    → contains c (chans_of user ss) ≡ false
not_among c user [] a = refl
not_among c user (s ∷ ss) a = ground (arith, a.0, not_among c user ss a.1)

All-both :
    {A : Type 0} (P Q : A → Type 0) (xs : List A) → All P xs → All Q xs → All (λ a. P a × Q a) xs
All-both P Q [] a b = tt
All-both P Q (x ∷ xs) a b = ((a.0, b.0), All-both P Q xs a.1 b.1)

-- Those that stay, when a user's channels are taken out.
stay-Subscribed :
    (n user : ℕ) (closed detached : List ℕ) (ss : List Subscription)
    → DistinctChans ss
    → All (Subscribed n closed detached) ss
    → All
        (Subscribed n closed (chans_of user ss ++ detached))
        (filter (λ s. not (s.user == user)) ss)
stay-Subscribed n user closed detached [] d a = tt
stay-Subscribed n user closed detached (x ∷ ss) d a =
    let ih = stay-Subscribed n user closed detached ss d.1 a.1 in
    let apart = All-filter (λ y. x.chan ≢ y.chan) (λ s. not (s.user == user)) ss d.0 in
    elim (Bool-cases (x.user == user)) [
      | inl gone ↦ rw gone (
          All-map_prop
            (λ s. Subscribed n closed (chans_of user ss ++ detached) s × (x.chan ≢ s.chan))
            (Subscribed n closed (x.chan ∷ (chans_of user ss ++ detached)))
            (filter (λ s. not (s.user == user)) ss)
            (λ s l. record { live = l.0.live; attached = ground (arith, l.0.attached, l.1) })
            (All-both _ _ (filter (λ s. not (s.user == user)) ss) ih apart))
      | inr stays ↦ rw stays (
        record {
          live = a.0.live;
          attached = ground (
            arith,
            a.0.attached,
            contains-append x.chan (chans_of user ss) detached,
            not_among x.chan user ss d.0,
          );
        },
        ih,
      )
    ]

taken-Live :
    (n user : ℕ) (closed detached : List ℕ) (ss : List Subscription)
    → All (Subscribed n closed detached) ss
    → All (Live n closed) (chans_of user ss)
taken-Live n user closed detached [] a = tt
taken-Live n user closed detached (x ∷ ss) a =
    let ih = taken-Live n user closed detached ss a.1 in
    elim (Bool-cases (x.user == user)) [
      | inl taken ↦ rw taken (a.0.live, ih)
      | inr stays ↦ rw stays ih
    ]

detach-Inv : (h : Hub) (user : ℕ) → Inv h → Inv (detach h user)
unfolding detach
detach-Inv h user v = record {
  subscribed =
      stay-Subscribed h.next_chan user h.closed h.detached h.by_user v.distinct v.subscribed;
  distinct = DistinctChans-filter (λ s. not (s.user == user)) h.by_user v.distinct;
  detached_live =
      All-append (Live h.next_chan h.closed) (chans_of user h.by_user) h.detached
        (taken-Live h.next_chan user h.closed h.detached h.by_user v.subscribed) v.detached_live;
  closed_old = v.closed_old;
}

still-Live :
    (n chan : ℕ) (closed cs : List ℕ)
    → All (Live n closed) cs
    → All (Live n (chan ∷ closed)) (filter (λ x. not (x == chan)) cs)
still-Live n chan closed [] a = tt
still-Live n chan closed (c ∷ cs) a =
    let ih = still-Live n chan closed cs a.1 in
    elim (Bool-cases (c == chan)) [
      | inl same ↦ rw same ih
      | inr other ↦
          rw other (record { old = a.0.old; is_open = ground (arith, a.0.is_open, other) }, ih)
    ]

member-Live :
    (n chan : ℕ) (closed cs : List ℕ)
    → All (Live n closed) cs
    → contains chan cs ≡ true
    → Live n closed chan
member-Live n chan closed [] a m = absurd (ground (arith, m))
member-Live n chan closed (c ∷ cs) a m = elim (Bool-cases (c == chan)) [
  | inl same ↦ subst (Live n closed) ((==_iff c chan).0 same) a.0
  | inr other ↦ member-Live n chan closed cs a.1 (ground (arith, m, other))
]

closed-Inv :
    (h : Hub) (chan : ℕ) (fs : List ℕ)
    → contains chan h.detached ≡ true
    → Inv h
    → Inv (record h {
      full = fs;
      closed = chan ∷ h.closed;
      detached = filter (λ x. not (x == chan)) h.detached;
    })
closed-Inv h chan fs m v = record {
  subscribed =
      All-map_prop (Subscribed h.next_chan h.closed h.detached)
        (Subscribed h.next_chan (chan ∷ h.closed) (filter (λ x. not (x == chan)) h.detached))
        h.by_user (λ s l. still_subscribed s l) v.subscribed;
  distinct = v.distinct;
  detached_live = still-Live h.next_chan chan h.closed h.detached v.detached_live;
  closed_old =
      ((member-Live h.next_chan chan h.closed h.detached v.detached_live m).old, v.closed_old);
}
  where
    still_subscribed :
        (s : Subscription)
        → Subscribed h.next_chan h.closed h.detached s
        → Subscribed h.next_chan (chan ∷ h.closed) (filter (λ x. not (x == chan)) h.detached) s
    still_subscribed s l =
        let apart : chan ≢ s.chan = λ e. absurd (false≢true (sym l.attached ∙ (rw (sym e) m))) in
        record {
          live = record { old = l.live.old; is_open = ground (arith, apart, l.live.is_open) };
          attached =
              ground (arith, l.attached, contains-filter (λ x. not (x == chan)) s.chan h.detached);
        }

close_detached-Fine : (h : Hub) (chan : ℕ) → Inv h → Fine (close_detached h chan)
unfolding close_detached
close_detached-Fine h chan v = elim (Bool-cases (contains chan h.detached)) [
  | inr gone ↦ rw gone v
  | inl m ↦
      let o = (member-Live h.next_chan chan h.closed h.detached v.detached_live m).is_open in
      elim (Bool-cases (contains chan h.full)) [
        | inl f ↦ rw (m, o, f, o) (closed-Inv h chan h.full m v)
        | inr f ↦ rw (m, o, f, o) (closed-Inv h chan (chan ∷ h.full) m v)
      ]
]

step-Fine : (h : Hub) (a : Action) → Inv h → Fine (step h a)
unfolding step notify
step-Fine h (subscribes user) v = subscribe-Inv h user v
step-Fine h (cancels user chan) v = cancel-Inv h user chan v
step-Fine h notifies v =
    notify_all-Fine h.by_user h
      (All-map_prop (Subscribed h.next_chan h.closed h.detached)
        (λ s. contains s.chan h.closed ≡ false) h.by_user (λ s l. l.live.is_open) v.subscribed)
      v
step-Fine h (detaches user) v = detach-Inv h user v
step-Fine h (closes chan) v = close_detached-Fine h chan v
step-Fine h (receives chan) v = receive-Inv h chan v

run-Fine : (as' : List Action) (h : Hub) → Inv h → Fine (run h as')
unfolding run
run-Fine [] h v = v
run-Fine (a ∷ as') h v = continue (step h a) as' (step-Fine h a v) (λ h' v'. run-Fine as' h' v')
  where
    continue :
        (o : Outcome) (as' : List Action)
        → Fine o
        → ((h' : Hub) → Inv h' → Fine (run h' as'))
        → Fine (elim o [ panics ↦ panics | runs h' ↦ run h' as' ])
    continue (runs h') as' f k = k h' f
    continue panics as' f k = absurd f

-- From a new hub no sequence of subscriptions, cancellations, notifications, reads, disconnections
-- and the sends and closes that follow a disconnection, in any order, sends on a closed channel or
-- closes one twice.
pub run_never_panics : (as' : List Action) → run new_hub as' ≢ panics
run_never_panics as' e = subst Fine e (run-Fine as' new_hub new_hub-Inv)
