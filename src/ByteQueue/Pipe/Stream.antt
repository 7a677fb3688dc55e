-- ===== src/ByteQueue/Pipe/Stream.antt =====
-- What comes out of a queue that a data source is read into, whatever the order of the steps.
use buffers.Prelude.{ℕ, ◌≡◌, List, ◌++◌}
use buffers.Error.{ErrorCodes}
use buffers.Reading.{ReadSource}
use buffers.Reading.Data.{DataSource}
use buffers.AnySource.{DataModel, AnyImpl, empty_model, data_source, read_model, sized_read_model}
use buffers.ByteQueue.{ByteQueue}
use buffers.ByteQueue.Pipe.{Pipe, stream, IsSound}

module _ (e : ErrorCodes) (d : DataSource) (r : ReadSource e) (q : ByteQueue) where
  Carries : Pipe e d r q → List ℕ → Pipe e d r q → Type 0
  Carries p o t = IsSound e d r q t × (stream e d r q p ≡ o ++ stream e d r q t)

  model_of : DataModel d → AnyImpl e d r → DataModel d
  model_of s empty_model = s
  model_of s (data_source s') = s'
  model_of s (read_model t) = s
  model_of s (sized_read_model n t) = s
