-- ===== src/Sync/Hub.antt =====
-- server/sync/notify.go: the notification hub. A channel is a number. `DisconnectUser` takes a
-- user's channels out under the lock and sends on and closes each of them after it, so each of these
-- is a step of its own, and other calls may run in between. A send on a closed channel and a second
-- close are Go's panics.
pub mod Safety
use zt_data_sync.Prelude.Membership.{contains}
use zt_data_sync.Prelude.{ℕ, [], suc, if◌then◌else◌, ◌==◌, ◌&&◌, ◌++◌, ◌∷◌, List, filter, map, not}

-- A user's channel.
pub record Subscription : Type 0 where
  pub user : ℕ
  pub chan : ℕ

-- `full`: the channels whose one place is taken; `detached`: those that are yet to be closed.
pub record Hub : Type 0 where
  pub by_user : List Subscription
  pub full : List ℕ
  pub closed : List ℕ
  pub detached : List ℕ
  pub next_chan : ℕ

pub data Outcome : Type 0 where
  runs : Hub → Outcome
  panics : Outcome

unfoldable pub new_hub : Hub
new_hub = record { by_user = []; full = []; closed = []; detached = []; next_chan = 0 }

unfoldable pub subscribe : Hub → ℕ → Hub
subscribe h user = record h {
  by_user = record { user = user; chan = h.next_chan } ∷ h.by_user;
  next_chan = suc h.next_chan;
}

abbrev pub drop_chan : ℕ → ℕ → List Subscription → List Subscription
drop_chan user chan subs = filter (λ s. not ((s.user == user) && (s.chan == chan))) subs

-- The function that `Subscribe` returns.
unfoldable pub cancel : Hub → ℕ → ℕ → Hub
cancel h user chan = record h { by_user = drop_chan user chan h.by_user }

-- A send that does not block: a full channel is passed over.
abbrev pub send : ℕ → Hub → Outcome
send chan h =
    if contains chan h.closed
    then panics
    else if contains chan h.full
    then runs h
    else runs (record h { full = chan ∷ h.full })

unfoldable pub notify_all : List Subscription → Hub → Outcome
notify_all [] h = runs h
notify_all (s ∷ ss) h = elim (send s.chan h) [ panics ↦ panics | runs h' ↦ notify_all ss h' ]

-- `Notify` tells all subscribers, whatever their groups.
unfoldable pub notify : Hub → Outcome
notify h = notify_all h.by_user h

abbrev pub chans_of : ℕ → List Subscription → List ℕ
chans_of user subs = map (λ s. s.chan) (filter (λ s. s.user == user) subs)

-- The part of `DisconnectUser` under the lock.
unfoldable pub detach : Hub → ℕ → Hub
detach h user = record h {
  by_user = filter (λ s. not (s.user == user)) h.by_user;
  detached = chans_of user h.by_user ++ h.detached;
}

abbrev pub close : ℕ → Hub → Outcome
close chan h =
    if contains chan h.closed
    then panics
    else runs
        (record h { closed = chan ∷ h.closed; detached = filter (λ x. not (x == chan)) h.detached })

-- One round of the loop after the lock.
unfoldable pub close_detached : Hub → ℕ → Outcome
close_detached h chan =
    if contains chan h.detached
    then elim (send chan h) [ panics ↦ panics | runs h' ↦ close chan h' ]
    else runs h

-- The subscriber reads its channel.
unfoldable pub receive : Hub → ℕ → Hub
receive h chan = record h { full = filter (λ x. not (x == chan)) h.full }

pub data Action : Type 0 where
  subscribes : ℕ → Action
  cancels : ℕ → ℕ → Action
  notifies : Action
  detaches : ℕ → Action
  closes : ℕ → Action
  receives : ℕ → Action

unfoldable pub step : Hub → Action → Outcome
unfolding subscribe cancel notify detach close_detached receive
step h (subscribes user) = runs (subscribe h user)
step h (cancels user chan) = runs (cancel h user chan)
step h notifies = notify h
step h (detaches user) = runs (detach h user)
step h (closes chan) = close_detached h chan
step h (receives chan) = runs (receive h chan)

-- The steps of all goroutines in the order in which they take the lock.
unfoldable pub run : Hub → List Action → Outcome
run h [] = runs h
run h (a ∷ as') = elim (step h a) [ panics ↦ panics | runs h' ↦ run h' as' ]
