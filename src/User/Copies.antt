-- ===== src/User/Copies.antt =====
-- The user library's copies of the functions of lib/std, against the kernel's.
use tupix.Base.{List, ℕ, ◌≡◌}
use tupix.Format
use tupix.Memory.Bytes.{memset}
use tupix.Numbers.{kitostr, kutostr}
use tupix.Strings.{kstrlen, kstrncpy}
use tupix.User.Check.Agree.{check_format_str-agrees}
use tupix.User.Check.Width.{calc_field_width-agrees}
use tupix.User.Check.{calc_field_width, check_format_str}
use tupix.User.Util.Agree.{
  itostr-agrees, strlen-agrees, strncpy-agrees, umemset-agrees, utostr-agrees,
}
use tupix.User.Util.{itostr, strlen, strncpy, umemset, utostr}

-- For every number, base, padding, buffer and string, with room or without, the functions of the user
-- library end as the kernel's do: `utostr` and `itostr` with the same bytes and lengths, `strlen`
-- with the same length, `strncpy` and `umemset` with the same bytes, `check_format_str` with the same answer, and
-- `calc_field_width` with the same padding, flag length and width.
pub user_library_agrees :
    (n base : ℕ) (str src : List ℕ)
    → (utostr n base str ≡ kutostr n base str)
      × (itostr n base str ≡ kitostr n base str)
      × (strlen str ≡ kstrlen str)
      × (strncpy str src n ≡ kstrncpy str src n)
      × (umemset str base n ≡ memset str base n)
      × (check_format_str str ≡ Format.check_format_str str)
      × (calc_field_width str n ≡ Format.calc_field_width str n)
user_library_agrees n base str src = (
  utostr-agrees n base str,
  itostr-agrees n base str,
  strlen-agrees str,
  strncpy-agrees str src n,
  umemset-agrees str base n,
  check_format_str-agrees str,
  calc_field_width-agrees str n,
)
