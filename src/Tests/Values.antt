-- ===== src/Tests/Values.antt =====
-- Runs of the blanks and the decimal numbers.
use libgmbus.Base.{◌≤◌, ◌<◌, false, ◌≡◌, arith, codes, All, length, fault, Fault}
use libgmbus.Util.{cut_whitespaces, int64_to_str, digits_value}
use libgmbus.Util.Blanks.{IsSkipped, cut_whitespaces_over_read}
use libgmbus.Util.Decimal.{IsDigit, int64_to_str_unsigned}

cut_whitespaces_over_read_example :
    (All IsSkipped (codes " \n") → cut_whitespaces (codes " \n") ≡ fault Fault.over_read)
    × (cut_whitespaces (codes " \n") ≡ fault Fault.over_read → All IsSkipped (codes " \n"))
cut_whitespaces_over_read_example = cut_whitespaces_over_read (codes " \n")

int64_to_str_unsigned_example :
    All IsDigit (int64_to_str 1204 false)
    × (0 < length (int64_to_str 1204 false))
    × (length (int64_to_str 1204 false) ≤ 20)
    × (digits_value 0 (int64_to_str 1204 false) ≡ 1204)
int64_to_str_unsigned_example = int64_to_str_unsigned 1204 (omega arith)
