-- ===== src/Protocol/RoundTrip/Maps.antt =====
-- Maps of values read back as they were written.
use blitz_db.Prelude.{
  ◌^◌, ◌≤◌, ◌<◌, String, none, [], ◌∷◌, ◌++◌, length, All, ◌≡◌, refl, ap, ◌∙◌, arith,
}
use mathlib.Core.List.{append_assoc, append-nil}
use blitz_db.Prelude.Map
use blitz_db.Prelude.Map.{Map, string_key}
use blitz_db.Prelude.Reader.{Reads, Reads-bind, Reads-last, Reads-pure, repeat}
use blitz_db.Types.Value.{Foreign, Value}
use blitz_db.Protocol.Wire.{Wire}
use blitz_db.Protocol.Writer.{write_fields, write_map}
use blitz_db.Protocol.Decoder.{get_pair, get_map, insert_all}
use blitz_db.Protocol.RoundTrip.Parts.{Reads-get_count, Reads-get_name, Reads-pure_eq}
use blitz_db.Protocol.RoundTrip.Values.{FitsValue, Reads-read_value}

-- No key comes twice: each is new to the map that the pairs before it make.
unfoldable pub Fresh : {V : Type 0} → Map String V → Map String V → Type 0
Fresh out [] = Unit
Fresh out ((k, v) ∷ m) = (Map.get out k ≡ none) × Fresh (Map.insert out k v) m

insert_new :
    {V : Type 0} (m : Map String V) (k : String) (v : V)
    → Map.get m k ≡ none
    → Map.insert m k v ≡ m ++ ((k, v) ∷ [])
unfolding Map.get Map.insert
insert_new [] k v h = refl
insert_new ((i, w) ∷ m) k v h = ground (arith, insert_new m k v)

insert_all-Fresh : {V : Type 0} (m out : Map String V) → Fresh out m → insert_all out m ≡ out ++ m
unfolding insert_all Fresh
insert_all-Fresh [] out h = rw (append-nil out) refl
insert_all-Fresh ((k, v) ∷ m) out (new, h) =
    insert_all-Fresh m (Map.insert out k v) h
    ∙ (ap (λ l. l ++ m) (insert_new out k v new) ∙ append_assoc out ((k, v) ∷ []) m)

module _ {F : Foreign} (c : Wire F) where
  -- A map within the bound of the reader, of names and values that fit, no name twice.
  abbrev pub FitsPair : String × Value F → Type 0
  FitsPair (k, v) = (length (c.as_bytes k) < 2 ^ 32) × FitsValue c v

  pub record FitsMap (m : Map String (Value F)) : Type 0 where
    pub few : length m ≤ 4096
    pub names : Fresh [] m
    pub pairs : All FitsPair m

  Reads-pairs :
      (m : Map String (Value F))
      → All FitsPair m
      → Reads (repeat (length m) (get_pair c)) (write_fields c m) m
  unfolding repeat get_pair write_fields
  Reads-pairs [] h = Reads-pure []
  Reads-pairs ((k, v) ∷ m) ((name, fit), h) =
      Reads-bind _
        (Reads-bind _ (Reads-get_name c k name)
          (Reads-last _ (Reads-read_value c v fit) (Reads-pure (k, v))))
        (Reads-last _ (Reads-pairs m h) (Reads-pure ((k, v) ∷ m)))

  pub Reads-get_map : (m : Map String (Value F)) → FitsMap m → Reads (get_map c) (write_map c m) m
  unfolding get_map write_map
  Reads-get_map m h =
      Reads-bind _ (Reads-get_count 4096 (length m) (omega (arith, h.few)) h.few)
        (Reads-last _ (Reads-pairs m h.pairs) (Reads-pure_eq (insert_all-Fresh m [] h.names)))
