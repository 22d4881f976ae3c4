-- ===== src/Utils/Tests.antt =====
-- The containers on a few keys.
use ciscollector_v.Common.{◌≡◌, refl, fields, is_space, List, [], ◌∷◌, Text, lit}
use ciscollector_v.Common.Maps.{nat_eq}
use ciscollector_v.Utils.Chunks.{chunks, AreChunks, chunks-AreChunks}

abbrev some_keys : List Text
some_keys = lit "a" ∷ [] ∷ lit "b" ∷ lit "a" ∷ []

-- A first word that is too long closes an empty chunk.
chunks_runs :
    (chunks (lit "aa bb ccccccc d") 5 ≡ lit "aa bb" ∷ lit "ccccccc" ∷ lit "d" ∷ [])
    × (chunks (lit "ccccccc d") 5 ≡ [] ∷ lit "ccccccc" ∷ lit "d" ∷ [])
unfolding chunks is_space
chunks_runs = (refl, refl)

chunks-AreChunks_example :
    AreChunks 5 (fields (lit "aa bb ccccccc d")) (chunks (lit "aa bb ccccccc d") 5)
chunks-AreChunks_example = chunks-AreChunks (lit "aa bb ccccccc d") 5
