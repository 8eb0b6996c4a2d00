-- ===== src/Tests/Books.antt =====
-- Tests of the arrays of levels and of the combined summary.
use aggbook.Prelude.{◌≡◌, refl}
use aggbook.Book.{PriceLevel, new_levels, push}
use aggbook.Tests.Sample.{one, two, three}

abbrev level : PriceLevel
level = record { price = two; amount = one }

-- A full array drops the level.
full_runs :
    push 1 (record { price = three; amount = one }) (push 1 level (new_levels 1))
    ≡ push 1 level (new_levels 1)
unfolding push
full_runs = refl
