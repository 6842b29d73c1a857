-- ===== src/Stream/Reader/Taking.antt =====
-- What `take_view` and `peek_u32` give, over the bytes that the reader holds.
use quantum_safe_py.Prelude.{
  ℕ, ◌+◌, ◌-◌, ◌≤◌, ◌≡◌, refl, sym, ap, ◌∙◌, inl, inr, true, false, List, [], ◌∷◌, ◌++◌, Bytes,
  length, length-append, take, drop, join, append_assoc, append-nil, take-append_le, take-append_ge,
  drop-append_le, drop-append_ge, take_all, drop_all, length-take, length-drop, ltb, leb, ◌==◌,
  if◌then◌else◌, arith, Bool-cases, ltb-false, ltb→lt, leb→le,
}
use quantum_safe_py.Wire.{unpack_u32}
use quantum_safe_py.Stream.Reader.{
  Reader, take_loop, take_head, gather, take_view, peek_loop, peek_u32,
}
use quantum_safe_py.Stream.Reader.Buffer.{remaining, IsReader}

-- What `take_view n` hands out and leaves, where `n` bytes are buffered.
pub record Taken (n : ℕ) (b : Bytes) (it : List Bytes) (size : ℕ) (out : Reader × Bytes)
    : Type 0 where
  pub bytes : out.1 ≡ take n b
  pub valid : IsReader out.0
  pub rest : remaining out.0 ≡ drop n b
  pub it_kept : out.0.it ≡ it
  pub size_left : out.0.size + n ≡ size

-- The loop gathers the bytes up to `n`.
take_loop_lem :
    (n : ℕ) (views : List Bytes) (parts : Bytes)
    → length parts ≤ n
    → n ≤ length parts + length (join views)
    → ((take_loop n views parts).0 ≡ parts ++ take (n - length parts) (join views))
      × (join (take_loop n views parts).1 ≡ drop (n - length parts) (join views))
unfolding take_loop
take_loop_lem n [] parts lo hi =
    let e : n - length parts ≡ 0 = omega arith in rw e (sym (append-nil parts), refl)
take_loop_lem n (head ∷ views) parts lo hi = elim (Bool-cases (ltb (length parts) n)) [
  | inr full ↦
      let e : n - length parts ≡ 0 = omega (arith, ltb-false (length parts) n full) in
      rw (full, e) (sym (append-nil parts), refl)
  | inl short ↦ elim (Bool-cases (leb (length head) (n - length parts))) [
    | inl fits ↦
        let h : length head ≤ n - length parts = leb→le _ _ fits in
        let len : length (parts ++ head) ≡ length parts + length head = length-append parts head in
        let e : n - length (parts ++ head) ≡ n - length parts - length head = omega arith in
        let (one, two) =
          take_loop_lem n views (parts ++ head) (omega (arith, ltb→lt _ _ short))
            (omega (arith, length-append head (join views))) in
        rw
          (
            short,
            fits,
            take-append_ge (n - length parts) head (join views) h,
            drop-append_ge (n - length parts) head (join views) h,
            ← e,
          )
          (one ∙ append_assoc parts head (take (n - length (parts ++ head)) (join views)), two)
    | inr over ↦
        let h : n - length parts ≤ length head = ground arith in
        rw
          (
            short,
            over,
            take-append_le (n - length parts) head (join views) h,
            drop-append_le (n - length parts) head (join views) h,
          )
          (refl, refl)
  ]
]

gather-Taken :
    (n : ℕ) (r : Reader) → IsReader r → n ≤ r.size → Taken n (remaining r) r.it r.size (gather n r)
unfolding gather
gather-Taken n r v h =
    let size = v.sized in
    let (parts, views) = take_loop_lem n r.views [] (omega arith) (omega arith) in
    let z : n - 0 ≡ n = omega arith in
    let parts' : (take_loop n r.views []).0 ≡ take n (join r.views) = rw z at parts in
    let views' : join (take_loop n r.views []).1 ≡ drop n (join r.views) = rw z at views in
    let len : length (take n (join r.views)) ≡ n = omega (arith, length-take n (join r.views)) in
    let fits : n ≤ length (join r.views) = omega arith in
    record {
      bytes = parts' ∙ sym (take-append_le n (join r.views) (join r.it) fits);
      valid = record {
        sized = rw (parts', len, views', length-drop n (join r.views), size);
        at_end = v.at_end;
      };
      rest = rw views' (sym (drop-append_le n (join r.views) (join r.it) fits));
      it_kept = refl;
      size_left = rw (parts', len) (omega arith);
    }

rest_of_head :
    (n : ℕ) (head : Bytes) (views : List Bytes)
    → n ≤ length head
    → join (if length head == n then views else drop n head ∷ views) ≡ drop n head ++ join views
rest_of_head n head views h = elim (Bool-cases (length head == n)) [
  | inl e ↦ rw (e, drop_all n head (ground arith)) refl
  | inr e ↦ rw e refl
]

take_head-Taken :
    (n : ℕ) (views : List Bytes) (r : Reader)
    → r.views ≡ views
    → IsReader r
    → n ≤ r.size
    → Taken n (remaining r) r.it r.size (take_head n views r)
unfolding take_head
take_head-Taken n [] r e v h = gather-Taken n r v h
take_head-Taken n (head ∷ views) r e v h = elim (Bool-cases (leb n (length head))) [
  | inr over ↦ rw over (gather-Taken n r v h)
  | inl fits ↦
      let le : n ≤ length head = leb→le _ _ fits in
      let all : join r.views ≡ head ++ join views = ap join e in
      let left = rest_of_head n head views le in
      rw fits (record {
        bytes =
            rw (all, append_assoc head (join views) (join r.it)) (sym (take-append_le n head _ le));
        valid = record {
          sized =
              rw (left, v.sized, all)
                (omega (
                  arith,
                  length-append head (join views),
                  length-append (drop n head) (join views),
                  length-drop n head,
                ));
          at_end = v.at_end;
        };
        rest =
            rw
              (
                left,
                all,
                append_assoc head (join views) (join r.it),
                append_assoc (drop n head) (join views) (join r.it),
              )
              (sym (drop-append_le n head _ le));
        it_kept = refl;
        size_left = omega arith;
      })
]

pub take_view-Taken :
    (n : ℕ) (r : Reader)
    → IsReader r
    → n ≤ r.size
    → Taken n (remaining r) r.it r.size (take_view n r)
unfolding take_view
take_view-Taken n r v h = take_head-Taken n r.views r refl v h

peek_loop_lem :
    (views : List Bytes) (head : Bytes)
    → length head ≤ 4
    → 4 ≤ length head + length (join views)
    → peek_loop views head ≡ head ++ take (4 - length head) (join views)
unfolding peek_loop
peek_loop_lem [] head lo hi =
    let e : 4 - length head ≡ 0 = omega arith in rw e (sym (append-nil head))
peek_loop_lem (view ∷ views) head lo hi = elim (Bool-cases (leb (4 - length head) (length view))) [
  | inl fits ↦
      let h : 4 - length head ≤ length view = leb→le _ _ fits in
      let len : leb 4 (length (head ++ take (4 - length head) view)) ≡ true = ground (
        arith,
        length-append head (take (4 - length head) view),
        length-take (4 - length head) view,
      ) in
      rw (len, take-append_le (4 - length head) view (join views) h)
  | inr short ↦
      let h : length view ≤ 4 - length head = ground arith in
      let all = take_all (4 - length head) view h in
      let len = length-append head view in
      let more : leb 4 (length (head ++ view)) ≡ false = ground (arith, len) in
      let e : 4 - length (head ++ view) ≡ 4 - length head - length view = omega arith in
      rw (all, more, take-append_ge (4 - length head) view (join views) h, ← e)
        (peek_loop_lem views (head ++ view) (omega arith)
            (omega (arith, length-append view (join views)))
          ∙ append_assoc head view (take (4 - length (head ++ view)) (join views)))
]

pub peek_u32_lem :
    (r : Reader) → IsReader r → 4 ≤ r.size → peek_u32 r ≡ unpack_u32 (take 4 (remaining r))
unfolding peek_u32
peek_u32_lem r v h =
    let size = v.sized in
    ap unpack_u32 (
      peek_loop_lem r.views [] (omega arith) (omega arith)
      ∙ sym (take-append_le 4 (join r.views) (join r.it) (omega arith)))
