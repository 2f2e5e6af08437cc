-- ===== src/Onboarding/Flow/Files.antt =====
-- What the flow does to the files: it cleans up, or it moves the new file to its place.
use signbox.Prelude.{◌≡◌, ◌⊎◌, inr, false, none, some}
use signbox.Prelude.Text.{
  Text, text_eq, text_eq_refl, text_eq_comm, lookup, insert, remove, lookup-insert, lookup-remove,
}
use signbox.Keystore.{File, FileSystem, destroy_keystore_file}
use signbox.Onboarding.Flow.{temp_path}
use signbox.Onboarding.Flow.Creation.{temp_path-ne}

module _ (path : Text) (before : FileSystem) where
  -- Every file is as before, but that the temporary container may be gone.
  pub record IsClean (after : FileSystem) : Type 0 where
    pub others : (p : Text) → text_eq (temp_path path) p ≡ false → lookup p after ≡ lookup p before
    pub temp :
        (lookup (temp_path path) after ≡ lookup (temp_path path) before)
        ⊎ (lookup (temp_path path) after ≡ none)

  -- The file stands under the path, which was free, the temporary container is gone, and every other
  -- file is as before.
  pub record IsMoved (file : File) (after : FileSystem) : Type 0 where
    pub was_free : lookup path before ≡ none
    pub active : lookup path after ≡ some file
    pub temp_gone : lookup (temp_path path) after ≡ none
    pub others :
        (p : Text)
        → text_eq (temp_path path) p ≡ false
        → text_eq path p ≡ false
        → lookup p after ≡ lookup p before

  pub destroyed-IsClean :
      (f : File)
      → IsClean (destroy_keystore_file (insert (temp_path path) f before) (temp_path path))
  unfolding destroy_keystore_file
  destroyed-IsClean f = record {
    others = λ p other. simp (lookup-remove, lookup-insert, other);
    temp = inr (simp (lookup-remove, text_eq_refl));
  }

  pub promoted-IsMoved :
      (f : File)
      → lookup path before ≡ none
      → IsMoved f (remove (temp_path path) (insert path f (insert (temp_path path) f before)))
  promoted-IsMoved f free = record {
    was_free = free;
    active = simp (
      lookup-remove,
      lookup-insert,
      text_eq_comm (temp_path path) path,
      temp_path-ne path,
      text_eq_refl,
    );
    temp_gone = simp (lookup-remove, text_eq_refl);
    others = λ p a b. simp (lookup-remove, lookup-insert, a, b);
  }
