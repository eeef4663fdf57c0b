-- ===== src/Result/Observers.antt =====
-- What the observers of `Result` (src/core/result.cpp) say of each way to make one.
use spinet.Common.{ℕ, ◌≡◌, refl, ◌↔◌, Bool, true, false, not, none, some, Text, []}
use spinet.Result.{
  Result, code, message, ok, system_error, custom_error, to_bool, negated, is_custom_error,
  to_string,
}

-- How a result was made.
pub data Origin : Result → Type 0 where
  succeeded : Origin ok
  by_system : (ec : ℕ) → Origin (system_error ec)
  by_message : (msg : Text) → Origin (custom_error msg)

abbrev pub made_by_message : {r : Result} → Origin r → Bool
made_by_message succeeded = false
made_by_message (by_system ec) = false
made_by_message (by_message msg) = true

-- What a caller is to read.
abbrev pub wording : (ℕ → Text) → {r : Result} → Origin r → Text
wording strerror succeeded = []
wording strerror (by_system ec) = strerror ec
wording strerror (by_message msg) = msg

pub Origin-total : (r : Result) → Origin r
Origin-total r = go r.err
  where
    go : (e : _) → Origin (record { err = e })
    go none = succeeded
    go (some (code ec)) = by_system ec
    go (some (message msg)) = by_message msg

-- `operator bool` and `operator!` are each other's negation, `operator bool` holds of `ok()` and of no
-- other result, and `to_string` gives the wording that belongs to the way in which the result was made.
pub observers_agree :
    (strerror : ℕ → Text) {r : Result} (o : Origin r)
    → (to_bool r ≡ not (negated r))
      × ((to_bool r ≡ true) ↔ (r ≡ ok))
      × (to_string strerror r ≡ wording strerror o)
unfolding to_bool negated to_string
observers_agree strerror succeeded = (refl, ((λ _. refl), λ _. refl), refl)
observers_agree strerror (by_system ec) = (refl, ((λ h. cc), λ h. cc), refl)
observers_agree strerror (by_message msg) = (refl, ((λ h. cc), λ h. cc), refl)

-- `is_custom_error` answers the opposite of its name: false of exactly the results that
-- `custom_error` makes, and true of `ok()` and of every system error.
pub is_custom_error-inverted :
    {r : Result} (o : Origin r) → is_custom_error r ≡ not (made_by_message o)
unfolding is_custom_error
is_custom_error-inverted succeeded = refl
is_custom_error-inverted (by_system ec) = refl
is_custom_error-inverted (by_message msg) = refl
