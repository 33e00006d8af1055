-- ===== src/Discovery/Snapshots/Atomic.antt =====
-- What a reader can see of an atomic write (pkg/discovery/atomic.go).
use ztre.Base.{
  ℕ, GoString, text_eq, text_eq_iff, text_eq_refl, true, false, ◌&&◌, Option, none, some, [], ◌∷◌,
  ◌++◌, ◌≡◌, refl, arith, if◌then◌else◌,
}
use ztre.Base.Dict
use ztre.Base.Dict.{Dict}
use ztre.Discovery.Snapshots.{
  Node, file, Write, no_temp, partial_temp, no_rename, written, temp_name, write_file_atomic,
}

longer_differs : (path s : GoString) (c : ℕ) → text_eq (path ++ (c ∷ s)) path ≡ false
unfolding text_eq
longer_differs [] s c = refl
longer_differs (x ∷ path) s c = ground (arith, longer_differs path s c)

-- A temporary file never has the name of the file that it becomes.
pub temp_name_differs : (path : GoString) (nano : ℕ) → text_eq (temp_name path nano) path ≡ false
unfolding temp_name
temp_name_differs path nano = longer_differs path _ b'.'

-- What a reader of any name but the temporary one finds.
pub get-write_file_atomic :
    (Bytes : Type 0) (dir : Dict (Node Bytes)) (path : GoString) (nano : ℕ) (bytes : Bytes)
    (w : Write Bytes) (name : GoString)
    → text_eq (temp_name path nano) name ≡ false
    → let (after, ok) = write_file_atomic dir (temp_name path nano) path bytes w in
      Dict.get after name
      ≡ (if ok && text_eq path name then some (file bytes) else Dict.get dir name)
unfolding write_file_atomic
get-write_file_atomic Bytes dir path nano bytes no_temp name other = refl
get-write_file_atomic Bytes dir path nano bytes (partial_temp part) name other =
    let temp = temp_name path nano in rw (Dict.get-put dir temp name (file part), other) refl
get-write_file_atomic Bytes dir path nano bytes (no_rename false) name other =
    let temp = temp_name path nano in rw (Dict.get-put dir temp name (file bytes), other) refl
get-write_file_atomic Bytes dir path nano bytes (no_rename true) name other =
    let temp = temp_name path nano in
    rw
      (
        Dict.get-remove (Dict.put dir temp (file bytes)) temp name,
        Dict.get-put dir temp name (file bytes),
        other,
      )
      refl
get-write_file_atomic Bytes dir path nano bytes written name other =
    let temp = temp_name path nano in
    let staged = Dict.put dir temp (file bytes) in
    rw
      (
        Dict.get-put (Dict.remove staged temp) path name (file bytes),
        Dict.get-remove staged temp name,
        Dict.get-put dir temp name (file bytes),
        other,
      )
      refl

-- The bytes that an ended write has left under the temporary name, if it has reached it.
abbrev pub left_over :
    {Bytes : Type 0} → Bytes → Write Bytes → Option (Node Bytes) → Option (Node Bytes)
left_over bytes no_temp before = before
left_over bytes (partial_temp part) before = some (file part)
left_over bytes (no_rename true) before = none
left_over bytes (no_rename false) before = some (file bytes)
left_over bytes written before = none

get-temp_name :
    (Bytes : Type 0) (dir : Dict (Node Bytes)) (path : GoString) (nano : ℕ) (bytes : Bytes)
    (w : Write Bytes)
    → Dict.get (write_file_atomic dir (temp_name path nano) path bytes w).0 (temp_name path nano)
      ≡ left_over bytes w (Dict.get dir (temp_name path nano))
unfolding write_file_atomic
get-temp_name Bytes dir path nano bytes no_temp = refl
get-temp_name Bytes dir path nano bytes (partial_temp part) =
    let temp = temp_name path nano in
    rw (Dict.get-put dir temp temp (file part), text_eq_refl temp) refl
get-temp_name Bytes dir path nano bytes (no_rename false) =
    let temp = temp_name path nano in
    rw (Dict.get-put dir temp temp (file bytes), text_eq_refl temp) refl
get-temp_name Bytes dir path nano bytes (no_rename true) =
    let temp = temp_name path nano in
    rw (Dict.get-remove (Dict.put dir temp (file bytes)) temp temp, text_eq_refl temp) refl
get-temp_name Bytes dir path nano bytes written =
    let temp = temp_name path nano in
    let staged = Dict.put dir temp (file bytes) in
    let other : text_eq path temp ≡ false =
      ground (arith, temp_name_differs path nano, text_eq_iff path temp, text_eq_iff temp path) in
    rw
      (
        Dict.get-put (Dict.remove staged temp) path temp (file bytes),
        other,
        Dict.get-remove staged temp temp,
        text_eq_refl temp,
      )
      refl

-- However the write ends, a reader of any name but the temporary one finds what was there before, except
-- that after a write without error the path holds the new bytes: never a part of them. Under the temporary
-- name there is nothing after a rename that worked, or that failed with a removal that worked; all the bytes
-- if that removal failed too; the part that was written if the first write broke off; and what was there before if
-- it did not begin.
pub write_file_atomic_exact :
    (Bytes : Type 0) (dir : Dict (Node Bytes)) (path : GoString) (nano : ℕ) (bytes : Bytes)
    (w : Write Bytes) (name : GoString)
    → text_eq (temp_name path nano) name ≡ false
    → let (after, ok) = write_file_atomic dir (temp_name path nano) path bytes w in
      (Dict.get after name
        ≡ (if ok && text_eq path name then some (file bytes) else Dict.get dir name))
      × (Dict.get after (temp_name path nano)
          ≡ left_over bytes w (Dict.get dir (temp_name path nano)))
write_file_atomic_exact Bytes dir path nano bytes w name other = (
  get-write_file_atomic Bytes dir path nano bytes w name other,
  get-temp_name Bytes dir path nano bytes w,
)
