-- ===== src/Schem/Runs.antt =====
-- Runs of the readers of src/formats/schem.cpp: nine values, the first eight of them at a time.
use water_structure_cpp.Common.{◌≡◌, refl, [], ◌∷◌, ◌++◌, some, arith, replicate}
use water_structure_cpp.Schem.{Reader, refill_limited, read_varints_u16}
use water_structure_cpp.Schem.Feed.{feeds_limited}
use water_structure_cpp.Schem.Varint.{IsByte}
use water_structure_cpp.Schem.Values.{read_varints_u16-decode_all}
use water_structure_cpp.Schem.Read.{unread, Agrees}
use water_structure_cpp.Schem.Bulk.{decode_all}

-- Ten bytes of a stream that goes on behind them.
abbrev payload : Reader
payload = record {
  buffered = [];
  tail = record { input = replicate 8 5 ++ 200 ∷ 1 ∷ 7 ∷ []; remaining = 10 };
}

-- One byte more.
five : {P : Type 0} → P → IsByte 5 × P
five p = (omega arith, p)

read_payload :
    read_varints_u16 refill_limited 300 9 payload
    ≡ some (
      replicate 8 5 ++ 200 ∷ [],
      record { buffered = []; tail = record { input = 7 ∷ []; remaining = 0 } },
    )
unfolding read_varints_u16 refill_limited
read_payload = refl

read_varints_u16-decode_all_example :
    Agrees refill_limited feeds_limited
      (read_varints_u16 refill_limited 300 9 payload)
      (decode_all 300 9 (unread refill_limited feeds_limited payload))
unfolding feeds_limited
read_varints_u16-decode_all_example =
    read_varints_u16-decode_all refill_limited feeds_limited 300 9 payload
      (five (five (five (five (five (five (five (five (omega arith, (omega arith, tt))))))))))
      (omega arith)
