-- ===== src/Copy/Blobs/Steps.antt =====
-- internal/image/copy/blobs.go: the calls of copyBlob, one by one, from a store that extends s0.
use magic_mirror.Prelude.{ℕ, ◌≡◌, refl, true, List, [], Option, none, some, Bytes}
use magic_mirror.Image.Types.{Repository}
use magic_mirror.Registry.Outcome.{Run, ◌>>=◌, Ends}
use magic_mirror.Registry.Client.{
  answered, Url, Request, Response, Scope, Method, new_request, expects, do_expecting,
  do_expecting_no_body, get_client,
}
use magic_mirror.Registry.Rules
use magic_mirror.Registry.Rules.{ClientsKeep}
use magic_mirror.Copy.Blobs.{Outside, or_bad_answer}
use magic_mirror.Copy.Blobs.Sound.{Extends, Promises}

module _ {S C : Type 0} {out : Outside S C} {Holds : S → Repository → Bytes → Type 0}
    {IsUpload : Url → Repository → Type 0} (promises : Promises out Holds IsUpload) (s0 : S) where
  open out use {net}

  abbrev pub Later : S → Type 0
  Later s = Extends out Holds s0 s

  pub Later-trans : {s s' : S} → Later s → Extends out Holds s s' → Later s'
  Later-trans h k = record {
    kept = λ repo dgst held. k.kept repo dgst (h.kept repo dgst held);
    sound = λ sound. k.sound (h.sound sound);
  }

  clients_keep : ClientsKeep net Later
  clients_keep = record {
    new_transport-keeps =
        λ repo scope s h. Later-trans h (promises.new_transport-Extends repo scope s);
    set_clients-keeps = λ cs s h. Later-trans h (promises.set_clients-Extends cs s);
  }

  module _ {B : Type 0} (Q : B → S → Type 0) where
    pub get_client-bind :
        (repo : Repository) (scope : Scope) (f : C → Run S B) (s : S)
        → Later s
        → ((client : C) (s' : S) → Later s' → Ends Later Q (f client s'))
        → Ends Later Q ((get_client net repo scope >>= f) s)
    get_client-bind repo scope f s h k = Rules.get_client-bind clients_keep Q repo scope f s h k

    pub new_request-bind :
        (method : Method) (url : Url) (body : Bytes) (f : Request → Run S B) (s : S)
        → Later s
        → Ends Later Q (f (record { method = method; url = url; headers = []; body = body }) s)
        → Ends Later Q ((new_request net method url body >>= f) s)
    new_request-bind method url body f s h k =
        Rules.new_request-bind net Later Q method url body f s h k

    pub or_bad_answer-bind :
        {A : Type 0} (o : Option A) (f : A → Run S B) (s : S)
        → Later s
        → ((a : A) → o ≡ some a → Ends Later Q (f a s))
        → Ends Later Q ((or_bad_answer out o >>= f) s)
    unfolding or_bad_answer
    or_bad_answer-bind none f s h k = h
    or_bad_answer-bind (some a) f s h k = k a refl

    pub do_expecting_no_body-bind :
        (client : C) (req : Request) (expected : List ℕ) (f : Response → Run S B) (s : S)
        → Later s
        → ((raw : Response)
            → (net.exchange client req s).0 ≡ answered raw
            → expects expected raw.status ≡ true
            → Later (net.exchange client req s).1
            → Ends Later Q (f (record raw { body = [] }) (net.exchange client req s).1))
        → Ends Later Q ((do_expecting_no_body net client req expected >>= f) s)
    do_expecting_no_body-bind client req expected f s h k =
        let after = Later-trans h (promises.exchange-Extends client req s) in
        Rules.do_expecting_no_body-bind net Later Q expected f client req s after
          (λ raw e fine. k raw e fine after)

    pub do_expecting-bind :
        (client : C) (req : Request) (expected : List ℕ) (f : Response → Run S B) (s : S)
        → Later s
        → ((raw : Response)
            → (net.exchange client req s).0 ≡ answered raw
            → expects expected raw.status ≡ true
            → Later (net.exchange client req s).1
            → Ends Later Q (f raw (net.exchange client req s).1))
        → Ends Later Q ((do_expecting net client req expected >>= f) s)
    do_expecting-bind client req expected f s h k =
        let after = Later-trans h (promises.exchange-Extends client req s) in
        Rules.do_expecting-bind net Later Q expected f client req s after
          (λ raw e fine. k raw e fine after)
