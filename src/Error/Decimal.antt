-- ===== src/Error/Decimal.antt =====
-- How the standard library displays an unsigned number.
use Prim.Native.String
use iroh_hyde_auth.Common.{
  ℕ, zero, suc, ◌^◌, ◌<◌, ◌≡◌, arith, IsU64, sym, ◌≤◌, ◌/◌, ◌%◌, String, ltb, if◌then◌else◌,
}

digit : ℕ → String
digit zero = "0"
digit (suc zero) = "1"
digit (suc (suc zero)) = "2"
digit (suc (suc (suc zero))) = "3"
digit (suc (suc (suc (suc zero)))) = "4"
digit (suc (suc (suc (suc (suc zero))))) = "5"
digit (suc (suc (suc (suc (suc (suc zero)))))) = "6"
digit (suc (suc (suc (suc (suc (suc (suc zero))))))) = "7"
digit (suc (suc (suc (suc (suc (suc (suc (suc zero)))))))) = "8"
digit _ = "9"

-- A number below 10 ^ fuel needs no more digits than the fuel.
digits : ℕ → ℕ → String
unfolding digit
digits zero n = ""
digits (suc fuel) n =
    let more = String.◌++◌ (digits fuel (n / 10)) (digit (n % 10)) in
    if ltb n 10 then digit n else more

-- 2 ^ 64 has twenty digits.
unfoldable pub decimal : ℕ → String
unfolding digits
decimal n = digits 20 n

-- A number with no more digits than the fuel is displayed the same with more fuel.
digits_more :
    (fuel fuel' n : ℕ)
    → fuel ≤ fuel'
    → n < 10 ^ suc fuel
    → digits (suc fuel) n ≡ digits (suc fuel') n
unfolding digits
digits_more zero fuel' n le h = ground (arith, h)
digits_more (suc fuel) zero n le h = absurd (omega (arith, le))
digits_more (suc fuel) (suc fuel') n le h =
    let more = digits_more fuel fuel' (n / 10) (omega (arith, le)) (omega (arith, h)) in
    ground (arith, more)

-- For a number of 64 bits, twenty digits are enough: no fuel beyond twenty displays it otherwise.
decimal_enough : (fuel n : ℕ) → IsU64 n → 20 ≤ fuel → digits fuel n ≡ decimal n
unfolding decimal
decimal_enough zero n small le = absurd (omega (arith, le))
decimal_enough (suc fuel) n small le =
    sym (digits_more 19 fuel n (omega (arith, le)) (omega (arith, small)))
