-- ===== src/Errors.antt =====
-- dpn/util/inc/Error.hpp: error codes of dpn's own beside those of errno. The C library's strerror and
-- errno are parameters. No other file of dpn includes it.
use dpn.Prelude.{ℕ, ◌+◌, ◌≡◌, ◌≢◌, Bytes, ◌==◌, if◌then◌else◌, arith, refl}
use dpn.Prelude.Int.{ℤ, pos, negsuc}
use dpn.Text.{codes}

abbrev pub hausnumero : ℕ
hausnumero = 156384712

-- EINVALNAME
abbrev pub invalid_name : ℕ
invalid_name = hausnumero + 51

-- ESTLERR, the next value of the enumeration
abbrev pub stl_error : ℕ
stl_error = invalid_name + 1

-- `errnum_`
pub record Error : Type 0 where
  pub errnum : ℤ

-- The constructor without an argument takes the value of errno.
unfoldable pub from_errno : ℤ → Error
from_errno errno = record { errnum = errno }

module _ (strerror : ℤ → Bytes) where
  unfoldable pub errno_to_string : ℤ → Bytes
  errno_to_string (pos n) =
      if n == invalid_name
      then codes "Invalid name used"
      else if n == stl_error
      then codes "STL Error"
      else strerror (pos n)
  errno_to_string (negsuc n) = strerror (negsuc n)

  unfoldable pub dpn_strerror : ℤ → Bytes
  unfolding errno_to_string
  dpn_strerror errnum = errno_to_string errnum

  unfoldable pub what : Error → Bytes
  unfolding dpn_strerror
  what e = dpn_strerror e.errnum

  -- The text of an error is the C library's for every number but the two of dpn: for those of errno on
  -- every system whose numbers stay below DPN_HAUSNUMERO.
  what-from_errno :
      (e : ℤ) → e ≢ pos invalid_name → e ≢ pos stl_error → what (from_errno e) ≡ strerror e
  unfolding what dpn_strerror errno_to_string from_errno
  what-from_errno (pos n) h k = ground (arith, h, k)
  what-from_errno (negsuc n) h k = refl
