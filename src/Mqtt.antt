-- ===== src/Mqtt.antt =====
-- src/MosquittoMQ.cc: one connection to an MQTT broker. `Message` is what is published and what a
-- subscriber is told, `Subscribers` the vector of subscribers, `Dispatch` the delivery of a message.
pub mod Connection
pub mod Message
pub mod Subscribers
pub mod Dispatch
