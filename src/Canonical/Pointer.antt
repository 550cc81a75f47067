-- ===== src/Canonical/Pointer.antt =====
-- `escape_json_pointer` of src/core/canonical.cpp has an inverse, and its result has no separator.
use water_structure_cpp.Common.{ℕ, ◌≡◌, refl, [], ◌∷◌, ◌≢◌, All, arith, ◌==◌, if◌then◌else◌}
use water_structure_cpp.Canonical.{ByteList, escape_json_pointer}

-- RFC 6901: `~1` stands for `/` and `~0` for `~`.
unfoldable pub unescape : ByteList → ByteList
unescape [] = []
unescape (c ∷ []) = c ∷ []
unescape (c ∷ d ∷ cs) =
    let rest = unescape cs in
    let more = unescape (d ∷ cs) in
    if c == 126 then (if d == 48 then 126 else 47) ∷ rest else c ∷ more

unescape_plain : (c : ℕ) (cs : ByteList) → c ≢ 126 → unescape (c ∷ cs) ≡ c ∷ unescape cs
unfolding unescape
unescape_plain c [] h = refl
unescape_plain c (d ∷ cs) h = ground arith

-- No `/` is left in an escaped key, and the key is read back from it: the segments of a path can be
-- told apart, and different keys give different paths.
pub escape_json_pointer_reads_back :
    (key : ByteList)
    → All (λ c. c ≢ 47) (escape_json_pointer key) × (unescape (escape_json_pointer key) ≡ key)
unfolding escape_json_pointer unescape
escape_json_pointer_reads_back [] = (tt, refl)
escape_json_pointer_reads_back (c ∷ cs) =
    let (clean, back) = escape_json_pointer_reads_back cs in
    ground (arith, clean, back, unescape_plain c (escape_json_pointer cs))
