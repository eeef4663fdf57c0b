-- ===== src/Result.antt =====
-- include/spinet/core/result.h and src/core/result.cpp: what a callback is told about an operation.
pub mod Observers
use spinet.Common.{ℕ, Bool, true, false, not, Option, none, some, Text, [], ◌==◌, if◌then◌else◌}

-- `std::variant<int, std::string>`: a number of `errno`, or a message.
pub data ErrorValue : Type 0 where
  code : ℕ → ErrorValue
  message : Text → ErrorValue

pub record Result : Type 0 where
  pub err : Option ErrorValue

abbrev pub ok : Result
ok = record { err = none }

abbrev pub system_error : ℕ → Result
system_error ec = record { err = some (code ec) }

abbrev pub custom_error : Text → Result
custom_error msg = record { err = some (message msg) }

has_value : Option ErrorValue → Bool
has_value none = false
has_value (some _) = true

-- `operator bool`
pub to_bool : Result → Bool
unfolding has_value
to_bool r = not (has_value r.err)

-- `operator!`
unfoldable pub negated : Result → Bool
unfolding has_value
negated r = has_value r.err

-- The alternative that the variant holds.
index : ErrorValue → ℕ
index (code _) = 0
index (message _) = 1

-- `err_ && err_.value().index() == 1`
is_message : Option ErrorValue → Bool
is_message none = false
is_message (some v) = index v == 1

pub is_custom_error : Result → Bool
unfolding is_message index
is_custom_error r = if is_message r.err then false else true

string_of : (ℕ → Text) → Option ErrorValue → Text
string_of strerror none = []
string_of strerror (some (code ec)) = strerror ec
string_of strerror (some (message msg)) = msg

-- `strerror` is the C library's.
pub to_string : (ℕ → Text) → Result → Text
unfolding string_of
to_string strerror r = string_of strerror r.err
