-- ===== src/Client/Calls/Layout.antt =====
-- What `Calls::try_from` reads back from calldata that the loop of `raw_starknet_calldata` wrote:
-- crates/core/src/client/helpers.rs.
use kakarot_rpc_adapter.Prelude.{
  ℕ, ◌+◌, ◌*◌, ◌^◌, ◌<◌, ◌≡◌, refl, ap, ◌∙◌, List, [], ◌∷◌, ◌++◌, some, length, get_elem?, slice,
  arith, append_assoc, append-nil, length-append, get_elem?-append_right, slice-middle, All, lt→ltb,
}
use kakarot_rpc_adapter.Types.{FieldElement}
use kakarot_rpc_adapter.Outcome.{ok}
use kakarot_rpc_adapter.Starknet.{Call}
use kakarot_rpc_adapter.Crates.{Crates}
use kakarot_rpc_adapter.Client.Calls.{
  u32_of_felt, calls_loop, try_from_calldata, execute_loop, execute_calldata_of,
}

module _ ⦃crates : Crates⦄ where
  open crates use {felt_from_uint, felt_from_uint_lem, u32_try_from, u32_try_from_lem}

  -- The four cells of each call, the first call's data at `offset`.
  abbrev headers : ℕ → List Call → List FieldElement
  headers offset [] = []
  headers offset (call ∷ calls) =
      call.to
      ∷ call.selector
      ∷ felt_from_uint offset
      ∷ felt_from_uint (length call.calldata)
      ∷ headers (offset + length call.calldata) calls

  abbrev payload : List Call → List FieldElement
  payload [] = []
  payload (call ∷ calls) = call.calldata ++ payload calls

  -- The calls that the reader makes of written ones: the cells at its indices for `to` and `selector`.
  abbrev pub shifted : ℕ → List Call → List Call
  shifted offset [] = []
  shifted offset (call ∷ calls) =
      record { to = call.selector; selector = felt_from_uint offset; calldata = call.calldata }
      ∷ shifted (offset + length call.calldata) calls

  -- The lengths fit 32 bits.
  abbrev pub Fits : List Call → Type 0
  Fits calls = All (λ call. length call.calldata < 2 ^ 32) calls

  length-headers :
      (offset : ℕ) (calls : List Call) → length (headers offset calls) ≡ length calls * 4
  length-headers offset [] = refl
  length-headers offset (call ∷ calls) =
      omega (arith, length-headers (offset + length call.calldata) calls)

  u32_of_felt-from_uint : (n : ℕ) → n < 2 ^ 32 → u32_of_felt (felt_from_uint n) ≡ ok n
  unfolding u32_of_felt
  u32_of_felt-from_uint n h =
      rw (felt_from_uint_lem n (omega arith), u32_try_from_lem n (omega arith), lt→ltb n _ h)

  execute_loop-headers :
      (calls : List Call) (execute concated : List FieldElement)
      → execute_loop calls execute concated
        ≡ (execute ++ headers (length concated) calls, concated ++ payload calls)
  unfolding execute_loop
  execute_loop-headers [] execute concated = rw (append-nil, append-nil)
  execute_loop-headers (call ∷ calls) execute concated =
      execute_loop-headers calls _ (concated ++ call.calldata)
      ∙ rw (length-append, append_assoc, append_assoc)

  -- A cell that stands `j` places after the part `pre` of `value`.
  cell :
      (value pre rest : List FieldElement) (i j k : ℕ) {a : FieldElement}
      → value ≡ pre ++ rest
      → length pre ≡ i * 4 + 1
      → k ≡ i * 4 + 1 + j
      → get_elem? rest j ≡ some a
      → get_elem? value k ≡ some a
  cell value pre rest i j k ev el ek er = rw (ev, ek, ← el, get_elem?-append_right pre rest j) er

  regroup_data :
      (pre cells done xs rest : List FieldElement) (t : ℕ)
      → pre ++ (cells ++ t ∷ (done ++ (xs ++ rest))) ≡ pre ++ (cells ++ t ∷ done) ++ (xs ++ rest)
  regroup_data pre cells done xs rest t = simp append_assoc

  regroup_cells :
      (pre cells more done xs rest : List FieldElement) (t : ℕ)
      → pre ++ ((cells ++ more) ++ t ∷ (done ++ (xs ++ rest)))
        ≡ (pre ++ cells) ++ (more ++ t ∷ ((done ++ xs) ++ rest))
  regroup_cells pre cells more done xs rest t = simp append_assoc

  length-front :
      (pre cells done : List FieldElement) (t : ℕ)
      → length (pre ++ (cells ++ t ∷ done)) ≡ length pre + length cells + 1 + length done
  length-front pre cells done t = rw (length-append, length-append) (omega arith)

  -- The data of the first call that is left.
  data_slice :
      (value pre done : List FieldElement) (t o i offset : ℕ) (call : Call) (calls : List Call)
      → value ≡ pre ++ (headers o (call ∷ calls) ++ t ∷ (done ++ payload (call ∷ calls)))
      → length pre ≡ i * 4 + 1
      → offset ≡ i * 4 + 1 + length (call ∷ calls) * 4 + 1 + length done
      → slice value offset (offset + length call.calldata) ≡ some call.calldata
  data_slice value pre done t o i offset call calls ev el eo =
      rw (ev ∙ regroup_data pre (headers o (call ∷ calls)) done call.calldata (payload calls) t) (
        slice-middle (pre ++ (headers o (call ∷ calls) ++ t ∷ done)) call.calldata (payload calls)
          offset (offset + length call.calldata)
          (omega (
            arith,
            eo,
            length-front pre (headers o (call ∷ calls)) done t,
            length-headers o (call ∷ calls),
          ))
          refl)

  calls_loop-headers :
      (calls : List Call) (value pre done : List FieldElement) (t o i offset : ℕ) (acc : List Call)
      → value ≡ pre ++ (headers o calls ++ t ∷ (done ++ payload calls))
      → length pre ≡ i * 4 + 1
      → offset ≡ i * 4 + 1 + length calls * 4 + 1 + length done
      → Fits calls
      → calls_loop value (length calls) i offset acc ≡ ok (acc ++ shifted o calls)
  unfolding calls_loop
  calls_loop-headers [] value pre done t o i offset acc ev el eo fits = rw append-nil
  calls_loop-headers (call ∷ calls) value pre done t o i offset acc ev el eo (fit, fits) =
      rw
        (
          cell value pre _ i 3 (i * 4 + 4) ev el (omega arith) refl,
          u32_of_felt-from_uint (length call.calldata) fit,
          cell value pre _ i 1 (i * 4 + 2) ev el (omega arith) refl,
          cell value pre _ i 2 (i * 4 + 3) ev el (omega arith) refl,
          data_slice value pre done t o i offset call calls ev el eo,
        )
        (calls_loop-headers calls value (pre ++ cells) (done ++ call.calldata) t
            (o + length call.calldata) (i + 1) (offset + length call.calldata) (acc ++ first ∷ [])
            (ev ∙ regroup_cells pre cells more done call.calldata (payload calls) t)
            (rw length-append (omega arith)) (rw length-append (omega arith)) fits
          ∙ ap ok (append_assoc acc (first ∷ []) _))
    where
      first : Call
      first = record { to = call.selector; selector = felt_from_uint o; calldata = call.calldata }

      cells : List FieldElement
      cells =
          call.to ∷ call.selector ∷ felt_from_uint o ∷ felt_from_uint (length call.calldata) ∷ []

      more : List FieldElement
      more = headers (o + length call.calldata) calls

  -- Calls that are written and read, if their number and the lengths of their calldata fit 32
  -- bits: the calldata of each comes back, and in place of its `to` and its `selector` stand the
  -- selector and the offset.
  pub try_from_calldata-execute_calldata_of :
      (calls : List Call)
      → length calls < 2 ^ 32
      → Fits calls
      → try_from_calldata (execute_calldata_of calls) ≡ ok (shifted 0 calls)
  unfolding try_from_calldata execute_calldata_of
  try_from_calldata-execute_calldata_of calls short fits =
      rw
        (
          execute_loop-headers calls (felt_from_uint (length calls) ∷ []) [],
          u32_of_felt-from_uint (length calls) short,
        )
        (calls_loop-headers calls _ (felt_from_uint (length calls) ∷ []) []
          (felt_from_uint (length (payload calls))) 0 0 (length calls * 4 + 2) [] refl (omega arith)
          (omega arith) fits)
