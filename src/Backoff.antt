-- ===== src/Backoff.antt =====
-- orders/transactions.go: shouldWeQuery, and net/messenger.go: shouldWeRetry. Times are in
-- nanoseconds since the epoch; a time that is still to come counts as now, which decides each test alike, since
-- the tests compare with positive durations.
use openbazaar.Prelude.{
  ℕ, ◌*◌, ◌-◌, ◌≤◌, ◌<◌, Bool, true, false, Option, none, some, ◌≡◌, ◌&&◌, ltb, leb, if◌then◌else◌,
  arith,
}

-- time.Since
abbrev pub since : ℕ → ℕ → ℕ
since now t = now - t

abbrev minutes : ℕ → ℕ
minutes n = 60000000000 * n

abbrev pub hours : ℕ → ℕ
hours n = 3600000000000 * n

abbrev days : ℕ → ℕ
days n = 86400000000000 * n

unfoldable pub should_we_query : ℕ → ℕ → ℕ → Bool
should_we_query now order_timestamp last_try =
    let t = since now order_timestamp in
    let last = since now last_try in
    if ltb t (minutes 15) && ltb (minutes 10) last
    then true
    else if ltb t (hours 1) && ltb (hours 1) last
    then true
    else if ltb t (hours 24) && ltb (minutes 12) last
    then true
    else if ltb t (days 7) && ltb (hours 48) last
    then true
    else if ltb t (days 30) && ltb (days 7) last
    then true
    else if leb (days 360) t && ltb (days 30) last
    then true
    else false

unfoldable pub should_we_retry : ℕ → ℕ → ℕ → Bool
should_we_retry now message_timestamp last_try =
    let t = since now message_timestamp in
    let last = since now last_try in
    if ltb t (minutes 15) && ltb (minutes 1) last
    then true
    else if ltb t (hours 1) && ltb (minutes 5) last
    then true
    else if ltb t (hours 24) && ltb (minutes 10) last
    then true
    else if ltb t (days 7) && ltb (minutes 15) last
    then true
    else if ltb t (days 30) && ltb (minutes 30) last
    then true
    else if ltb t (days 90) && ltb (hours 1) last
    then true
    else if ltb t (days 180) && ltb (hours 3) last
    then true
    else if ltb t (days 360) && ltb (hours 24) last
    then true
    else if leb (days 360) t && ltb (days 7) last
    then true
    else false

-- The least wait at an order's age, if there is one.
pub query_interval : ℕ → Option ℕ
query_interval t =
    if ltb t (minutes 15)
    then some (minutes 10)
    else if ltb t (hours 24)
    then some (minutes 12)
    else if ltb t (days 7)
    then some (hours 48)
    else if ltb t (days 30)
    then some (days 7)
    else if ltb t (days 360)
    then none
    else some (days 30)

-- The least wait at a message's age.
pub retry_interval : ℕ → ℕ
retry_interval t =
    if ltb t (minutes 15)
    then minutes 1
    else if ltb t (hours 1)
    then minutes 5
    else if ltb t (hours 24)
    then minutes 10
    else if ltb t (days 7)
    then minutes 15
    else if ltb t (days 30)
    then minutes 30
    else if ltb t (days 90)
    then hours 1
    else if ltb t (days 180)
    then hours 3
    else if ltb t (days 360)
    then hours 24
    else days 7

abbrev pub waited : Option ℕ → ℕ → Bool
waited none last = false
waited (some d) last = ltb d last

-- shouldWeQuery asks whether the last attempt is longer ago than a wait given by the order's age
-- alone: ten minutes for an order of less than a quarter of an hour, twelve minutes for one of less
-- than a day, 48 hours for less than a week, a week for less than 30 days, no wait is long enough
-- for less than 360 days, and 30 days from then on.
pub should_we_query_lem :
    (now order_timestamp last_try : ℕ)
    → should_we_query now order_timestamp last_try
      ≡ waited (query_interval (since now order_timestamp)) (since now last_try)
unfolding should_we_query query_interval
should_we_query_lem now o l = ground arith

-- shouldWeRetry asks whether the last attempt is longer ago than a wait given by the message's age
-- alone. The wait grows with the age, from a minute to a week, so that a message is never tried again
-- within a minute and always after a week.
pub should_we_retry_lem :
    (now message_timestamp last_try : ℕ)
    → (should_we_retry now message_timestamp last_try
        ≡ ltb (retry_interval (since now message_timestamp)) (since now last_try))
      × ((since now last_try ≤ minutes 1 → should_we_retry now message_timestamp last_try ≡ false)
          × (days 7 < since now last_try → should_we_retry now message_timestamp last_try ≡ true))
      × ((u : ℕ)
          → message_timestamp ≤ u
          → retry_interval (since now u) ≤ retry_interval (since now message_timestamp))
unfolding should_we_retry retry_interval
should_we_retry_lem now m l =
    (ground arith, (λ h. ground arith, λ h. ground arith), λ u h. ground arith)
