-- ===== src/Notify.antt =====
-- src/H5VL_log_reqi.cpp: the callback that counts the requests of the underlying VOL which a
-- request waits for, and calls the user's callback when the last one is done.
use vol_log_based.Prelude.{ℕ, suc, ◌-◌, ◌≡◌, refl, ap, ◌∙◌, List, [], ◌∷◌, length}
use vol_log_based.Prelude.{Bool, true, false, ◌||◌, ◌==◌, if◌then◌else◌, arith, Option, none, some}

-- `H5VL_request_status_t` of HDF5.
pub data Status : Type 0 where
  in_progress succeed fail cant_cancel canceled : Status

-- `H5VL_log_req_notify_ctx_t`: the requests that are not done, and the status so far.
pub record NotifyCtx : Type 0 where
  pub cnt : ℕ
  pub stat : Status

abbrev pub is_fail : Status → Bool
is_fail fail = true
is_fail in_progress = false
is_fail succeed = false
is_fail cant_cancel = false
is_fail canceled = false

abbrev pub is_succeed : Status → Bool
is_succeed succeed = true
is_succeed in_progress = false
is_succeed fail = false
is_succeed cant_cancel = false
is_succeed canceled = false

-- The status after one more request.
unfoldable pub merge_status : Status → Status → Status
merge_status status stat = if is_fail status then fail else if is_succeed stat then status else stat

-- `H5VL_log_reqi_notify_cb`: the context after the call, and the status that the user's callback
-- gets if it is called.
unfoldable pub notify_cb : Status → NotifyCtx → NotifyCtx × Option Status
unfolding merge_status
notify_cb status c =
    let stat = merge_status status c.stat in
    (record { cnt = c.cnt - 1; stat = stat }, if c.cnt - 1 == 0 then some stat else none)

-- The status given to the user's callback, if it is called, in front of the later ones.
abbrev pub after : (NotifyCtx → List Status) → NotifyCtx × Option Status → List Status
after rest (next, none) = rest next
after rest (next, some t) = t ∷ rest next

-- The calls of the user's callback while the requests are done one after the other.
unfoldable pub notify_all : List Status → NotifyCtx → List Status
unfolding notify_cb
notify_all [] c = []
notify_all (s ∷ ss) c = after (notify_all ss) (notify_cb s c)

-- A request failed.
abbrev pub any_fail : List Status → Bool
any_fail [] = false
any_fail (s ∷ ss) = is_fail s || any_fail ss

-- The first status that is no success, or success.
abbrev pub first_other : List Status → Status
first_other [] = succeed
first_other (s ∷ ss) = if is_succeed s then first_other ss else s

-- The status that the requests have together.
abbrev pub overall : List Status → Status
overall ss = if any_fail ss then fail else first_other ss

-- The status after all requests, from the one so far.
merged : List Status → Status → Status
merged [] stat = stat
merged (s ∷ ss) stat = merged ss (merge_status s stat)

merged-fail : (ss : List Status) → merged ss fail ≡ fail
unfolding merged merge_status
merged-fail [] = refl
merged-fail (in_progress ∷ ss) = merged-fail ss
merged-fail (succeed ∷ ss) = merged-fail ss
merged-fail (fail ∷ ss) = merged-fail ss
merged-fail (cant_cancel ∷ ss) = merged-fail ss
merged-fail (canceled ∷ ss) = merged-fail ss

-- A status that is neither success nor failure stays unless a request fails.
merged_kept :
    (stat : Status) (ss : List Status)
    → is_fail stat ≡ false
    → is_succeed stat ≡ false
    → merged ss stat ≡ (if any_fail ss then fail else stat)
unfolding merged merge_status
merged_kept stat [] hf hs = refl
merged_kept stat (in_progress ∷ ss) hf hs = rw hs (merged_kept stat ss hf hs)
merged_kept stat (succeed ∷ ss) hf hs = rw hs (merged_kept stat ss hf hs)
merged_kept stat (fail ∷ ss) hf hs = merged-fail ss
merged_kept stat (cant_cancel ∷ ss) hf hs = rw hs (merged_kept stat ss hf hs)
merged_kept stat (canceled ∷ ss) hf hs = rw hs (merged_kept stat ss hf hs)

merged-overall : (ss : List Status) → merged ss succeed ≡ overall ss
unfolding merged merge_status
merged-overall [] = refl
merged-overall (in_progress ∷ ss) = merged_kept in_progress ss refl refl
merged-overall (succeed ∷ ss) = merged-overall ss
merged-overall (fail ∷ ss) = merged-fail ss
merged-overall (cant_cancel ∷ ss) = merged_kept cant_cancel ss refl refl
merged-overall (canceled ∷ ss) = merged_kept canceled ss refl refl

notify_cb-more :
    (s : Status) (n : ℕ) (stat : Status)
    → notify_cb s record { cnt = suc (suc n); stat = stat }
      ≡ (record { cnt = suc n; stat = merge_status s stat }, none)
unfolding notify_cb
notify_cb-more s n stat =
    let down : suc (suc n) - 1 ≡ suc n = omega arith in
    let more : (suc n == 0) ≡ false = ground arith in rw (down, more)

notify_one :
    (s stat : Status)
    → notify_all (s ∷ []) record { cnt = 1; stat = stat } ≡ merge_status s stat ∷ []
unfolding notify_all notify_cb
notify_one s stat = refl

notify_all-cons :
    (s : Status) (ss : List Status) (c : NotifyCtx)
    → notify_all (s ∷ ss) c ≡ after (notify_all ss) (notify_cb s c)
unfolding notify_all
notify_all-cons s ss c = refl

notify_once :
    (s : Status) (ss : List Status) (stat : Status)
    → notify_all (s ∷ ss) record { cnt = suc (length ss); stat = stat } ≡ merged (s ∷ ss) stat ∷ []
unfolding merged
notify_once s [] stat = notify_one s stat
notify_once s (t ∷ ss) stat =
    notify_all-cons s (t ∷ ss) record { cnt = suc (suc (length ss)); stat = stat }
    ∙ (ap (after (notify_all (t ∷ ss))) (notify_cb-more s (length ss) stat)
        ∙ notify_once t ss (merge_status s stat))

-- While the requests that a context counts are done, one or more in any order, the user's
-- callback is called exactly once, by the last of them. It gets failure if any request failed,
-- otherwise the first status that is no success, and success if all succeeded.
pub notify_all-overall :
    (s : Status) (ss : List Status)
    → notify_all (s ∷ ss) record { cnt = suc (length ss); stat = succeed } ≡ overall (s ∷ ss) ∷ []
notify_all-overall s ss = notify_once s ss succeed ∙ ap (λ t. t ∷ []) (merged-overall (s ∷ ss))
