-- ===== src/Stream/Reader.antt =====
-- protocols/stream.py: `_pieces`, and the class `_Reader`. A `memoryview` is the bytes that it shows.
pub mod Buffer
pub mod Taking
use quantum_safe_py.Prelude.{
  ℕ, ◌+◌, ◌-◌, Bool, true, false, not, Option, none, some, List, [], ◌∷◌, ◌++◌, Bytes, length, take,
  drop, ltb, leb, ◌==◌, ◌&&◌, ◌||◌, if◌then◌else◌,
}
use quantum_safe_py.Outcome.{Result, ok, err}
use quantum_safe_py.Wire.{unpack_u32}

-- A binary file, by what its successive reads return, or an iterable of byte strings.
pub data Source : Type 0 where
  file : List Bytes → Source
  items : List Bytes → Source

-- A file is read until a read returns nothing.
until_empty : List Bytes → List Bytes
until_empty [] = []
until_empty ([] ∷ ps) = []
until_empty ((b ∷ p) ∷ ps) = (b ∷ p) ∷ until_empty ps

unfoldable pub pieces : Source → List Bytes
unfolding until_empty
pieces (file reads) = until_empty reads
pieces (items ps) = ps

pub record Reader : Type 0 where
  -- What the iterator has still to deliver.
  pub it : List Bytes
  pub views : List Bytes
  pub size : ℕ
  pub ended : Bool

unfoldable pub new_reader : Source → Reader
new_reader s = record { it = pieces s; views = []; size = 0; ended = false }

-- `_views.append`, for a piece that is not empty.
unfoldable pub append_view : List Bytes → Bytes → List Bytes
append_view views [] = views
append_view views (b ∷ p) = views ++ ((b ∷ p) ∷ [])

-- The loop of `fill`, over the pieces that are left.
unfoldable pub fill_loop : ℕ → List Bytes → List Bytes → ℕ → Reader
fill_loop n [] views size =
    if ltb size n
    then record { it = []; views = views; size = size; ended = true }
    else record { it = []; views = views; size = size; ended = false }
fill_loop n (p ∷ ps) views size =
    let more = fill_loop n ps (append_view views p) (size + length p) in
    if ltb size n then more else record { it = p ∷ ps; views = views; size = size; ended = false }

unfoldable pub fill : ℕ → Reader → Reader
fill n r = if r.ended then r else fill_loop n r.it r.views r.size

-- The loop of `take_view`: the bytes that are gathered, and the views that stay.
unfoldable pub take_loop : ℕ → List Bytes → Bytes → Bytes × List Bytes
take_loop n [] parts = (parts, [])
take_loop n (head ∷ views) parts =
    let whole = take_loop n views (parts ++ head) in
    let need = n - length parts in
    if ltb (length parts) n
    then (if leb (length head) need
        then whole
        else (parts ++ take need head, drop need head ∷ views))
    else (parts, head ∷ views)

gather : ℕ → Reader → Reader × Bytes
unfolding take_loop
gather n r =
    let (parts, views) = take_loop n r.views [] in
    (record r { views = views; size = r.size - length parts }, parts)

take_head : ℕ → List Bytes → Reader → Reader × Bytes
unfolding gather
take_head n [] r = gather n r
take_head n (head ∷ views) r =
    if leb n (length head)
    then (
      record r {
        views = if length head == n then views else drop n head ∷ views;
        size = r.size - n;
      },
      take n head,
    )
    else gather n r

unfoldable pub take_view : ℕ → Reader → Reader × Bytes
unfolding take_head
take_view n r = take_head n r.views r

-- The loop of `peek_u32`.
unfoldable pub peek_loop : List Bytes → Bytes → Bytes
peek_loop [] head = head
peek_loop (view ∷ views) head =
    let head' = head ++ take (4 - length head) view in
    let more = peek_loop views head' in if leb 4 (length head') then head' else more

unfoldable pub peek_u32 : Reader → Result ℕ
peek_u32 r = unpack_u32 (peek_loop r.views [])
