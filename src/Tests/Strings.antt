-- ===== src/Tests/Strings.antt =====
-- Runs of the string functions on the strings "a,b" at 16 and "," at 32.
use c_lite.Base.{
  ℕ, ◌+◌, ◌<◌, ◌≡◌, ◌↔◌, refl, ◌⊎◌, inr, true, List, [], ◌∷◌, ◌++◌, some, arith, ◌==◌,
  if◌then◌else◌, drop,
}
use c_lite.Base.Int.{ℤ, pos, is_neg}
use c_lite.Memory.{Addr, Mem, null, poke, peek, IsCString, IsByteMem}
use c_lite.Text.{has}
use c_lite.Str.Block.{memmove, memmem}
use c_lite.Str.Block.Moves.{memmove-poke}
use c_lite.Str.Block.Search.{IsFirst, memmem-IsFirst}
use c_lite.Str.Copy.{strncpy}
use c_lite.Str.Copy.Bounded.{strncpy-poke}
use c_lite.Str.Compare.{strcmp}
use c_lite.Str.Compare.Order.{Precedes, strcmp-order}
use c_lite.Str.Search.{strstr, strcasestr, Token, token, strtok, strtok_r}
use c_lite.Str.Search.Span.{count_in}
use c_lite.Str.Search.Substring.{Occurs, OccursFold, strstr-IsFirst, strcasestr-IsFirst}
use c_lite.Str.Search.Tokens.{Field, strtok_r-Field, strtok_empty_token}

abbrev cells : Mem
cells a =
    if a == 16
    then 97
    else if a == 17
    then 44
    else if a == 18
    then 98
    else if a == 32
    then 44
    else 0

abbrev word : List ℕ
word = 97 ∷ 44 ∷ 98 ∷ []

abbrev comma : List ℕ
comma = 44 ∷ []

word-IsCString : IsCString cells 16 word
word-IsCString = (refl, omega arith, (refl, omega arith, (refl, omega arith, refl)))

tail-IsCString : IsCString cells 17 (44 ∷ 98 ∷ [])
tail-IsCString = (refl, omega arith, (refl, omega arith, refl))

comma-IsCString : IsCString cells 32 comma
comma-IsCString = (refl, omega arith, refl)

cells-IsByteMem : IsByteMem cells
cells-IsByteMem q = ground arith

strncpy-poke_example : strncpy cells 64 16 5 ≡ (poke cells 64 (word ++ 0 ∷ 0 ∷ []), 64)
strncpy-poke_example = strncpy-poke word cells 64 16 5 word-IsCString (inr (omega arith))

memmove-poke_example : memmove cells 17 16 3 ≡ (poke cells 17 (peek cells 16 3), 17)
memmove-poke_example = memmove-poke cells 17 16 3

strcmp-order_example :
    (r : ℤ) × (strcmp 8 cells 16 32 ≡ some r)
    × ((r ≡ pos 0) ↔ (word ≡ comma))
    × ((is_neg r ≡ true) ↔ Precedes word comma)
strcmp-order_example =
    strcmp-order word comma 8 cells 16 32 word-IsCString comma-IsCString (omega arith)

strstr-IsFirst_example :
    (r : Addr) × (strstr 8 cells 16 32 ≡ some r) × IsFirst (Occurs comma word) 0 4 16 r
strstr-IsFirst_example =
    strstr-IsFirst word comma 8 cells 16 32 word-IsCString comma-IsCString (omega arith)

-- A call with a null pointer, which goes on at the saved one.
strtok_r-Field_example :
    (t : Token) × (strtok_r 8 cells null 32 17 ≡ some t)
    × (((count_in comma (44 ∷ 98 ∷ []) ≡ 2) × (t ≡ token null cells null))
        ⊎ ((count_in comma (44 ∷ 98 ∷ []) < 2)
            × Field comma
                (17 + count_in comma (44 ∷ 98 ∷ []))
                (drop (count_in comma (44 ∷ 98 ∷ [])) (44 ∷ 98 ∷ []))
                t))
strtok_r-Field_example =
    strtok_r-Field comma 8 cells 32 cells-IsByteMem comma-IsCString (omega arith) (omega arith)
      (44 ∷ 98 ∷ []) 17 null 17 (inr (refl, refl)) tail-IsCString (omega arith) (omega arith)

strtok_empty_token_example :
    (t : Token) × (strtok 8 cells 17 32 0 ≡ some t) × (t.start ≡ 17) × IsCString t.mem 17 []
strtok_empty_token_example =
    strtok_empty_token comma 8 cells 32 cells-IsByteMem comma-IsCString (omega arith) (omega arith)
      44 (98 ∷ []) 17 0 tail-IsCString (omega arith) (omega arith) (unfold has in refl)

memmem-IsFirst_example :
    IsFirst (λ j. peek cells (16 + j) 1 ≡ peek cells 32 1) 0 3 16 (memmem cells 16 3 32 1)
memmem-IsFirst_example = memmem-IsFirst cells 16 3 32 1

strcasestr-IsFirst_example :
    (r : Addr) × (strcasestr 8 cells 16 32 ≡ some r) × IsFirst (OccursFold comma word) 0 4 16 r
strcasestr-IsFirst_example =
    strcasestr-IsFirst word comma 8 cells 16 32 word-IsCString comma-IsCString (omega arith)
      (omega arith)
