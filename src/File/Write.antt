-- ===== src/File/Write.antt =====
-- How `filewrite` (kernel/file.c) cuts a write into transactions.
use operating_system_se.Base.{
  ℕ, zero, suc, ◌+◌, ◌-◌, ◌*◌, ◌≤◌, ◌≡◌, ◌≢◌, inl, inr, ltb, if◌then◌else◌, ℤ, pos, arith,
  Bool-cases,
}
use operating_system_se.File.{File, max_write, write_chunks, filewrite_inode}

module _ {S : Type 0} (writei : ℕ → ℕ → ℕ → S → ℤ × S) where
  -- Each call of `writei` writes all the bytes that it is asked to write.
  abbrev pub WritesAll : Type 0
  WritesAll = (i off n : ℕ) (ip : S) → (writei i off n ip).0 ≡ pos n

  write_chunks-all :
      (fuel n i off : ℕ) (ip : S)
      → WritesAll
      → i ≤ n
      → n - i ≤ fuel * max_write
      → ((write_chunks writei fuel n i off ip).0 ≡ n)
        × ((write_chunks writei fuel n i off ip).1.0 ≡ off + (n - i))
  unfolding write_chunks
  write_chunks-all zero n i off ip all h k = (omega arith, omega arith)
  write_chunks-all (suc fuel) n i off ip all h k =
      let n1 : ℕ = if ltb max_write (n - i) then max_write else n - i in
      let ip1 : S = (writei i off n1 ip).1 in
      elim (Bool-cases (ltb i n)) [
        | inl more ↦ ground (
          arith,
          all i off n1 ip,
          write_chunks-all fuel n (i + n1) (off + n1) ip1 all (ground arith) (ground arith),
        )
        | inr done ↦ ground arith
      ]

  -- If each call of `writei` writes all it is asked to, a `filewrite` to a writable file on an inode, with a
  -- round for each 3072 bytes, returns `n` and moves the offset of the file by `n`.
  pub filewrite_inode-all :
      (fuel n : ℕ) (f : File) (ip : S)
      → WritesAll
      → f.writable ≢ 0
      → n ≤ fuel * max_write
      → ((filewrite_inode writei fuel n f ip).0 ≡ pos n)
        × ((filewrite_inode writei fuel n f ip).1.0 ≡ record f { off = f.off + n })
  unfolding filewrite_inode
  filewrite_inode-all fuel n f ip all w h =
      ground (arith, write_chunks-all fuel n 0 f.off ip all (omega arith) (omega arith))
