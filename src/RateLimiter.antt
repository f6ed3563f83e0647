-- ===== src/RateLimiter.antt =====
-- packages/backend/src/blockchain/hotwallet/utils/rateLimiter.ts. The clock is read once by each
-- operation and given as an argument, in milliseconds; a difference of times is written with its
-- terms on both sides of the test. A promise that `queueRequest` makes is named by a number.
pub mod Events
pub mod Pruning
pub mod Invariant
pub mod Window
pub mod Dynamic
mod Tests
use Prim.Native.Nat.{min, max}
use Prim.Native.String.{◌++◌ as text_append}
use alive_human.Base.{
  ℕ, ◌+◌, ◌-◌, ◌*◌, ◌/◌, Bool, true, false, not, String, List, [], ◌∷◌, ◌++◌, Option, none, some,
  ltb, leb, ◌==◌, if◌then◌else◌, get_or, length, filter, head?, map,
}
use alive_human.Base.Dict.{Dict, lookup, insert}

-- A number of requests, or `Infinity`.
pub data Limit : Type 0 where
  finite : ℕ → Limit
  unlimited : Limit

-- `RateLimiterOptions`: a key that is absent is `none`.
pub record LimiterOptions : Type 0 where
  pub max_requests : ℕ
  pub interval : ℕ
  pub queue_enabled : Option Bool
  pub max_queue_size : Option ℕ
  pub queue_timeout : Option ℕ
  pub error_on_limit : Option Bool
  pub dynamic_limits : Option Bool

-- The options with their defaults filled in.
pub record Settings : Type 0 where
  pub queue_enabled : Bool
  pub max_queue_size : ℕ
  pub queue_timeout : ℕ
  pub error_on_limit : Bool
  pub dynamic_limits : Bool

pub record RateLimiter : Type 0 where
  pub max_requests : Limit
  pub interval : ℕ
  pub settings : Settings
  pub requests : Dict (List ℕ)
  pub queues : Dict (List ℕ)
  pub resource_limits : Dict Limit
  pub cleanup_scheduled : Bool

-- The constructor; `is_test` is the test of NODE_ENV.
unfoldable pub create : Bool → LimiterOptions → RateLimiter
create is_test o = record {
  max_requests = if is_test then unlimited else finite o.max_requests;
  interval = if is_test then 0 else o.interval;
  settings = record {
    queue_enabled = if is_test then false else get_or o.queue_enabled true;
    max_queue_size = get_or o.max_queue_size 1000;
    queue_timeout = get_or o.queue_timeout 30000;
    error_on_limit = if is_test then false else get_or o.error_on_limit true;
    dynamic_limits = get_or o.dynamic_limits false;
  };
  requests = [];
  queues = [];
  resource_limits = [];
  cleanup_scheduled = true;
}

-- The error's `retryAfter` is `none` where the code computes NaN. The resource that a queue's error
-- names is the part of the key before its first colon; the key is kept here.
pub data RateLimitError : Type 0 where
  limit_exceeded : String → Option ℕ → RateLimitError
  queue_is_full : String → Option ℕ → RateLimitError
  queue_timed_out : String → RateLimitError

-- A call that waits: its key, the time that it read, and its own array of valid requests.
pub record Parked : Type 0 where
  pub key : String
  pub time : ℕ
  pub valid : List ℕ

pub data Wait : Type 0 where
  proceed : Wait
  refused : RateLimitError → Wait
  queued : ℕ → Parked → Wait
  delayed : Parked → Wait

abbrev pub key_of : String → String → String
key_of resource operation = text_append resource (text_append ":" operation)

-- `now - timestamp < this.interval`
abbrev pub is_fresh : ℕ → ℕ → ℕ → Bool
is_fresh interval now timestamp = ltb now (timestamp + interval)

abbrev pub reached : ℕ → Limit → Bool
reached n (finite m) = leb m n
reached n unlimited = false

abbrev limit_or : Option Limit → Limit → Limit
limit_or none default = default
limit_or (some (finite n)) default = if n == 0 then default else finite n
limit_or (some unlimited) default = unlimited

-- `getResourceLimit`: a limit of 0 counts as none, as by `||`.
unfoldable pub get_resource_limit : RateLimiter → String → Limit
get_resource_limit l resource = limit_or (lookup resource l.resource_limits) l.max_requests

-- `Math.ceil((interval - (now - first)) / 1000)`, for the first valid request.
abbrev retry_after : ℕ → ℕ → List ℕ → Option ℕ
retry_after interval now [] = none
retry_after interval now (first ∷ rest) = some ((first + interval - now + 999) / 1000)

-- `queueRequest` up to its wait, for the promise `id`.
unfoldable pub queue_request : RateLimiter → Option ℕ → ℕ → Parked → RateLimiter × Wait
queue_request l retry id p =
    let queue = get_or (lookup p.key l.queues) [] in
    let made : RateLimiter = record l { queues = insert p.key queue l.queues } in
    if leb l.settings.max_queue_size (length queue)
    then (made, refused (queue_is_full p.key retry))
    else (record l { queues = insert p.key (queue ++ id ∷ []) l.queues }, queued id p)

-- `waitForAvailability` up to its wait, if it has one.
unfoldable pub wait_for_availability :
    Bool → RateLimiter → String → String → ℕ → ℕ → RateLimiter × Wait
wait_for_availability is_test l resource operation now id =
    let key = key_of resource operation in
    let valid = filter (is_fresh l.interval now) (get_or (lookup key l.requests) []) in
    let pruned : RateLimiter = record l { requests = insert key valid l.requests } in
    let parked : Parked = record { key = key; time = now; valid = valid } in
    let retry = retry_after l.interval now valid in
    let queueing = queue_request pruned retry id parked in
    if is_test
    then (l, proceed)
    else (if reached (length valid) (get_resource_limit l resource)
        then (if l.settings.queue_enabled
            then queueing
            else (if l.settings.error_on_limit
                then (pruned, refused (limit_exceeded resource retry))
                else (pruned, delayed parked)))
        else (record l { requests = insert key (valid ++ now ∷ []) l.requests }, proceed))

-- What follows the wait: the call's own array, with its time, replaces the stored one.
pub finish_wait : RateLimiter → Parked → RateLimiter
finish_wait l p = record l { requests = insert p.key (p.valid ++ p.time ∷ []) l.requests }

-- `processQueue`: the first waiter leaves the queue, and its promise is resolved.
pub process_queue : RateLimiter → String → RateLimiter × Option ℕ
process_queue l key = elim (lookup key l.queues) [
  | none ↦ (l, none)
  | some [] ↦ (l, none)
  | some (next ∷ rest) ↦ (record l { queues = insert key rest l.queues }, some next)
]

abbrev remove_waiter : ℕ → List ℕ → List ℕ
remove_waiter id [] = []
remove_waiter id (i ∷ is) = if i == id then is else i ∷ remove_waiter id is

-- The queue's timer: a promise that still waits is removed and rejected.
pub queue_timeout : RateLimiter → ℕ → Parked → RateLimiter × Wait
queue_timeout l id p =
    let queue = get_or (lookup p.key l.queues) [] in
    (
      record l { queues = insert p.key (remove_waiter id queue) l.queues },
      refused (queue_timed_out p.key),
    )

pub set_resource_limit : RateLimiter → String → Limit → RateLimiter
set_resource_limit l resource limit = record l {
  resource_limits = insert resource limit l.resource_limits;
}

-- `updateDynamicLimits`: the ratio of usage and limit is compared by multiplying out. With a limit
-- of 0 the ratio is Infinity, or NaN for no usage, which passes neither test.
pub update_dynamic_limits : RateLimiter → String → ℕ → RateLimiter
update_dynamic_limits l resource usage = elim (get_resource_limit l resource) [
  | unlimited ↦
      set_resource_limit l resource
        (elim l.max_requests [ finite m ↦ finite (m * 2) | unlimited ↦ unlimited ])
  | finite limit ↦
      if ltb (9 * limit) (10 * usage)
      then set_resource_limit l resource (finite (max 1 (limit - 1)))
      else (if ltb (2 * usage) limit
          then set_resource_limit l resource (elim l.max_requests [
            | finite m ↦ finite (min (m * 2) (limit + 1))
            | unlimited ↦ finite (limit + 1)
          ])
          else l)
]

abbrev pub is_empty : List ℕ → Bool
is_empty [] = true
is_empty (x ∷ xs) = false

-- The two loops of `cleanup`.
pub sweep_requests : (ℕ → Bool) → Dict (List ℕ) → Dict (List ℕ)
sweep_requests fresh [] = []
sweep_requests fresh ((key, requests) ∷ rest) =
    let swept = sweep_requests fresh rest in
    if is_empty (filter fresh requests) then swept else (key, filter fresh requests) ∷ swept

pub sweep_queues : Dict (List ℕ) → Dict (List ℕ)
sweep_queues [] = []
sweep_queues ((key, queue) ∷ rest) =
    let swept = sweep_queues rest in if is_empty queue then swept else (key, queue) ∷ swept

pub cleanup : RateLimiter → ℕ → RateLimiter
cleanup l now = record l {
  requests = sweep_requests (is_fresh l.interval now) l.requests;
  queues = sweep_queues l.queues;
}

pub record Status : Type 0 where
  pub limit : Limit
  pub remaining : Limit
  pub reset : Option ℕ
  pub queue_length : ℕ

abbrev minus : Limit → ℕ → Limit
minus (finite m) n = finite (m - n)
minus unlimited n = unlimited

-- `getRateLimitStatus`: `reset` is 0 without a valid request, or if the first has time 0.
pub get_rate_limit_status : RateLimiter → String → ℕ → Status
get_rate_limit_status l resource now =
    let valid = filter (is_fresh l.interval now) (get_or (lookup resource l.requests) []) in
    record {
      limit = get_resource_limit l resource;
      remaining = minus (get_resource_limit l resource) (length valid);
      reset = elim valid [
        | [] ↦ some 0
        | first ∷ rest ↦ if first == 0 then some 0 else retry_after l.interval now (first ∷ rest)
      ];
      queue_length = length (get_or (lookup resource l.queues) []);
    }

-- `reset`; `destroy` also ends the cleanup timer.
pub reset : RateLimiter → RateLimiter
reset l = record l { requests = []; queues = []; resource_limits = [] }

pub destroy : RateLimiter → RateLimiter
destroy l = record l { requests = []; queues = []; resource_limits = []; cleanup_scheduled = false }
