-- ===== src/Uploads/Ends.antt =====
-- How a handler goes on after it has taken an image: nothing is written to the database.
use stranger_club.Base.{ℕ, String}
use stranger_club.Db.{Db}
use stranger_club.Env.{Env, Imaging, Upload}
use stranger_club.Exec.{Error, Result, err, Session, Exec, ◌>>=◌}
use stranger_club.Exec.Ends.{Ends, Ends-require, Ends-found, Ends-pure-bind, Ends-assoc}
use stranger_club.Uploads.{Image, read_and_validate_image, persist_image}

module _ {ℓ} {A : Type ℓ} {Q : Result A → Db → Type 0} where
  pub Ends-read_and_validate_image :
      (imaging : Imaging) (upload : Upload) (max_bytes : ℕ) (k : Image → Exec Db A) (s : Session Db)
      → ((e : Error) → Q (err e) s.committed)
      → ((image : Image) → Ends Q (k image) s)
      → Ends Q (read_and_validate_image imaging upload max_bytes >>= k) s
  unfolding read_and_validate_image
  Ends-read_and_validate_image imaging upload max_bytes k s failed rest = Ends-assoc _ _ k s (
      Ends-require _ _ _ s (failed _) λ named. Ends-assoc _ _ k s (
        Ends-require _ _ _ s (failed _) λ small. Ends-assoc _ _ k s (
          Ends-found _ _ _ s (failed _) λ format decoded.
            Ends-assoc _ _ k s
              (Ends-found _ _ _ s (failed _) λ known allowed. Ends-pure-bind _ k s (rest _)))))

  pub Ends-persist_image :
      (env : Env) (image : Image) (k : String → Exec Db A) (s : Session Db)
      → ((e : Error) → Q (err e) s.committed)
      → ((key : String) → Ends Q (k key) s)
      → Ends Q (persist_image env image >>= k) s
  unfolding persist_image
  Ends-persist_image env image k s failed rest =
      Ends-assoc _ _ k s (Ends-require _ _ _ s (failed _) λ up. Ends-pure-bind _ k s (rest _))
